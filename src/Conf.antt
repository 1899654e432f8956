-- ===== src/Conf.antt =====
-- src/conf.c: reading the configuration from an XML tree. `load` stands for `dlopen`, `dlsym` and the
-- loaded `module_get_info`. Allocations are taken to succeed.
pub mod Exit
pub mod Listed
pub mod Destroy
pub mod Modules
use xwp_server.Array.{Array, array_create, array_push}
use xwp_server.Base.{
  ℕ, zero, suc, ◌*◌, List, [], ◌∷◌, Option, none, some, take, if◌then◌else◌, ℤ, pos,
}
use xwp_server.CLib.{Bytes, codes, strcmp_eq}
use xwp_server.Conf.Exit.{
  Parsed, parsed, exits, ◌>>=◌, or_exit, tree_missing, root_needed, module_not_opened,
  module_no_info, vhost_name_needed, pattern_needed, handler_needed, handler_name_needed,
  handler_not_found, null_read, overrun,
}
use xwp_server.Xml.{
  XmlNode, Children, end, sibling, children, xml_tree_find, xml_tree_find_first, xml_tree_str,
  xml_tree_str_first, xml_tree_int_first,
}

-- `module_so_conf_t`: its name, and its `module_create` on the handler's node. The result is a module
-- by a number, or NULL.
pub record ModuleSo : Type 0 where
  pub name : Bytes
  pub create : Option XmlNode → Option ℕ

pub data Loaded : Type 0 where
  not_opened no_info : Loaded
  loaded : ModuleSo → Loaded

-- `vhost_loc_conf_t`, but for the pointer to its parent
pub record LocConf : Type 0 where
  pub root : Bytes
  pub pattern_str : Bytes
  pub handler_name : Bytes
  pub handler : ℕ

-- `vhost_conf_t`
pub record VhostConf : Type 0 where
  pub name : Bytes
  pub root : Bytes
  pub locs : Array LocConf

-- `conf_t`
pub record ConfFile : Type 0 where
  pub worker_num : ℤ
  pub max_threads : ℤ
  pub request_pool_size : ℤ
  pub connection_timeout : ℤ
  pub client_header_size : ℤ
  pub large_client_header_size : ℤ
  pub content_body_buf_size : ℤ
  pub max_content_len : ℤ
  pub port : ℤ
  pub ip : Option Bytes
  pub root : Bytes
  pub default_page : Bytes
  pub module_sos : Array ModuleSo
  pub vhosts : Array VhostConf
  pub default_vhost : VhostConf

-- `array_push`, whose result is not looked at.
unfoldable pub push {ℓ} : {A : Type ℓ} → Array A → A → Parsed (Array A)
push a x = elim (array_push a x) [ none ↦ exits overrun | some a' ↦ parsed a' ]

-- `if(p.data == NULL) p = other`
abbrev pub str_or : Option Bytes → Bytes → Bytes
str_or none other = other
str_or (some s) other = s

-- How many siblings there are.
unfoldable pub width : Children → ℕ
width end = 0
width (sibling node nodes) = suc (width nodes)

-- `for(;;) { node = xml_tree_find(root, name, i++); if(node == NULL) break; ... }`, over the array that
-- it pushes to. One round more than there are children is enough.
unfoldable pub each_child {ℓ} :
    {A : Type ℓ}
    → (XmlNode → Parsed A)
    → Option XmlNode
    → Bytes
    → ℕ
    → ℕ
    → Array A
    → Parsed (Array A)
unfolding push
each_child parse root name zero i a = parsed a
each_child parse root name (suc fuel) i a = elim (xml_tree_find root name i) [
  | none ↦ parsed a
  | some node ↦ parse node >>= λ x. push a x >>= λ a'. each_child parse root name fuel (suc i) a'
]

module _ (load : Bytes → Loaded) where
  unfoldable pub load_module : Bytes → Parsed ModuleSo
  load_module file = elim (load file) [
    | not_opened ↦ exits module_not_opened
    | no_info ↦ exits module_no_info
    | loaded so ↦ parsed so
  ]

  -- The loop of `conf_parse_loadmodule`, which ends at the first module without a text. The test
  -- `i == 0` behind it is never true.
  unfoldable pub module_loop : Option XmlNode → ℕ → ℕ → Array ModuleSo → Parsed (Array ModuleSo)
  unfolding load_module push
  module_loop root zero i a = parsed a
  module_loop root (suc fuel) i a = elim (xml_tree_str root (codes "module") i) [
    | none ↦ parsed a
    | some file ↦ load_module file >>= λ so. push a so >>= λ a'. module_loop root fuel (suc i) a'
  ]

  unfoldable pub conf_parse_loadmodule : Option XmlNode → Parsed (Array ModuleSo)
  unfolding module_loop width
  conf_parse_loadmodule none = module_loop none 1 0 (array_create 10)
  conf_parse_loadmodule (some root) =
      module_loop (some root) (suc (width (children root))) 0 (array_create 10)

-- The loop over `module_sos`: the first with the name decides. An empty cell would be read through.
unfoldable pub find_so : Bytes → Option XmlNode → List (Option ModuleSo) → Parsed (Option ℕ)
find_so name conf_node [] = parsed none
find_so name conf_node (none ∷ cells) = exits null_read
find_so name conf_node (some so ∷ cells) =
    let rest = find_so name conf_node cells in
    if strcmp_eq name so.name then parsed (so.create conf_node) else rest

-- `conf_parse_location`. What `regcomp` returns is not looked at.
unfoldable pub conf_parse_location : Array ModuleSo → Bytes → XmlNode → Parsed LocConf
unfolding find_so
conf_parse_location sos vhost_root node = do
  pattern_str ← or_exit (xml_tree_str_first (some node) (codes "pattern")) pattern_needed
  handler_node ← or_exit (xml_tree_find_first (some node) (codes "handler")) handler_needed
  name ← or_exit (xml_tree_str_first (some handler_node) (codes "name")) handler_name_needed
  created ←
      find_so name (xml_tree_find_first (some handler_node) (codes "handler_conf"))
        (take sos.count sos.elts)
  handler ← or_exit created handler_not_found
  parsed (record {
    root = str_or (xml_tree_str_first (some node) (codes "root")) vhost_root;
    pattern_str = pattern_str;
    handler_name = name;
    handler = handler;
  })

-- `conf_parse_vhost`. The test `i == 0` behind its loop is never true.
unfoldable pub conf_parse_vhost : Array ModuleSo → Bytes → XmlNode → Parsed VhostConf
unfolding each_child conf_parse_location width
conf_parse_vhost sos conf_root node = do
  name ← or_exit (xml_tree_str_first (some node) (codes "name")) vhost_name_needed
  let root = str_or (xml_tree_str_first (some node) (codes "root")) conf_root
  locs ←
      each_child (conf_parse_location sos root) (some node) (codes "location")
        (suc (width (children node))) 0 (array_create 10)
  parsed (record { name = name; root = root; locs = locs })

-- `thiz->vhosts->elts[0]`, and the read of its name: the cells of a new array are NULL.
unfoldable pub first_cell {ℓ} : {A : Type ℓ} → List (Option A) → Parsed A
first_cell (some x ∷ cells) = parsed x
first_cell _ = exits null_read

module _ (load : Bytes → Loaded) where
  -- `conf_parse`, from the tree that the XML parser gives. The test `i == 0` behind its loop is never
  -- true.
  unfoldable pub conf_parse : Option XmlNode → Parsed ConfFile
  unfolding each_child conf_parse_vhost conf_parse_loadmodule width first_cell
  conf_parse tree = do
    node ← or_exit tree tree_missing
    let int = λ (name : Bytes) (default_val : ℕ). xml_tree_int_first tree name (pos default_val)
    root ← or_exit (xml_tree_str_first tree (codes "root")) root_needed
    sos ← conf_parse_loadmodule load (xml_tree_find_first tree (codes "load_module"))
    vhosts ←
        each_child (conf_parse_vhost sos root) tree (codes "vhost") (suc (width (children node))) 0
          (array_create 10)
    default_vhost ← first_cell vhosts.elts
    parsed (record {
      worker_num = int (codes "worker_num") 1;
      max_threads = int (codes "max_threads") 50;
      request_pool_size = int (codes "request_pool_size") (1024 * 8);
      connection_timeout = int (codes "connection_timeout") 30;
      client_header_size = int (codes "client_header_size") (1024 * 2);
      large_client_header_size = int (codes "large_client_header_size") (1024 * 4);
      content_body_buf_size = int (codes "content_body_buf_size") (4 * 1024);
      max_content_len = int (codes "max_content_len") (1024 * 1024);
      port = int (codes "port") 80;
      ip = xml_tree_str_first tree (codes "ip");
      root = root;
      default_page = codes "index.html";
      module_sos = sos;
      vhosts = vhosts;
      default_vhost = default_vhost;
    })
