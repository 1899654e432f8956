-- ===== src/Uwsgi/Module.antt =====
-- The creation and the handler of src/module_uwsgi.c: `module_uwsgi_conf_init`,
-- `module_uwsgi_create`, `upstream_uwsgi_create` and `module_uwsgi_handle_request`.
pub mod Modifier
use xwp_server.Base.{
  ℕ, ◌-◌, ◌%◌, ◌^◌, Bool, true, false, Option, none, some, if◌then◌else◌, ltb, ℤ, pos, negsuc, List,
  [],
}
use xwp_server.CLib.{Bytes, codes}
use xwp_server.Io.{Call, connect_remote}
use xwp_server.Xml.{XmlNode, xml_tree_find_first, xml_tree_str_first, xml_tree_int_first}

-- `module_uwsgi_conf_t`; `pass_params` is never set.
pub record UwsgiConf : Type 0 where
  pub ip : Bytes
  pub port : ℕ
  pub modifier1 : ℕ
  pub modifier2 : ℕ

-- The conversion of an `int` to an unsigned type of `w` bits.
abbrev pub unsigned : ℕ → ℤ → ℕ
unsigned w (pos n) = n % 2 ^ w
unsigned w (negsuc n) = 2 ^ w - 1 - n % 2 ^ w

-- `== -1`, on an `int`
abbrev pub is_minus_one : ℤ → Bool
is_minus_one (pos n) = false
is_minus_one (negsuc n) = if ltb 0 n then false else true

-- `pool_strdup2` leaves the NULL of the new record where there is no text.
unfoldable pub backend_ip : Option Bytes → Bytes
backend_ip none = codes "127.0.0.1"
backend_ip (some s) = s

-- From the test of `pass_conf_node` on. `conf->port == -1` compares an `int` that was a `uint16_t`.
unfoldable pub uwsgi_pass : ℕ → Option XmlNode → Option UwsgiConf
unfolding backend_ip
uwsgi_pass modifier1 none = none
uwsgi_pass modifier1 (some pass_conf_node) =
    let port = unsigned 16 (xml_tree_int_first (some pass_conf_node) (codes "port") (negsuc 0)) in
    let conf : UwsgiConf = record {
      ip = backend_ip (xml_tree_str_first (some pass_conf_node) (codes "ip"));
      port = port;
      modifier1 = modifier1;
      modifier2 = 0;
    } in
    if is_minus_one (pos port) then none else some conf

-- The result 0 is `none`. `modifier1` is assigned twice; the second value stays.
unfoldable pub module_uwsgi_conf_init : Option XmlNode → Option UwsgiConf
unfolding uwsgi_pass
module_uwsgi_conf_init xml_conf_node =
    let modifier1 = unsigned 8 (xml_tree_int_first xml_conf_node (codes "modifier2") (pos 0)) in
    uwsgi_pass modifier1 (xml_tree_find_first xml_conf_node (codes "uwsgi_pass"))

-- `module_uwsgi_create`, whose allocation may fail: the module, by its configuration.
unfoldable pub module_uwsgi_create : Bool → Option XmlNode → Option UwsgiConf
unfolding module_uwsgi_conf_init
module_uwsgi_create allocated xml_conf_node =
    if allocated then module_uwsgi_conf_init xml_conf_node else none

-- The result of `module_process`, with the status that was set or the socket of the upstream.
pub data Handled : Type 0 where
  process_done : ℕ → Handled
  process_upstream : ℕ → Handled

-- `upstream_uwsgi_create`, with the results of `pool_alloc`, `socket` and `connect`: the status of a
-- failure or the socket, and the calls on it.
unfoldable pub upstream_uwsgi_create : Bool → Option ℕ → Bool → Handled × List Call
unfolding connect_remote
upstream_uwsgi_create false socket connected = (process_done 500, [])
upstream_uwsgi_create true socket connected =
    let (remote, calls) = connect_remote socket connected in
    elim remote [ none ↦ (process_done 502, calls) | some fd ↦ (process_upstream fd, calls) ]

-- `module_uwsgi_handle_request`, with its `assert` on the status: none where it fails.
unfoldable pub module_uwsgi_handle_request : Bool → Option ℕ → Bool → Option (Handled × List Call)
unfolding upstream_uwsgi_create
module_uwsgi_handle_request allocated socket connected =
    checked (upstream_uwsgi_create allocated socket connected)
  where
    checked : Handled × List Call → Option (Handled × List Call)
    checked (process_upstream fd, calls) = some (process_upstream fd, calls)
    checked (process_done status, calls) =
        if ltb 300 status then some (process_done status, calls) else none

-- What `module_get_info` fills in: `name`, `author`, `description`, `version`.
pub record ModuleInfo : Type 0 where
  pub name : Bytes
  pub author : Bytes
  pub description : Bytes
  pub version : Bytes

unfoldable pub module_get_info : ModuleInfo
module_get_info = record {
  name = codes "uwsgi";
  author = codes "pengwu<wp.4163196@gmail.com>";
  description = codes "uwsgi request handler";
  version = codes "0.1";
}
