-- ===== src/Static.antt =====
-- src/module_default.c: the handler of static files. What `stat` and `open` return for a path is an
-- argument, and so are the location's root and the default page.
pub mod Answers
use xwp_server.Base.{
  ℕ, ◌%◌, ◌^◌, Bool, true, false, not, ◌&&◌, ◌||◌, List, [], ◌∷◌, ◌++◌, Option, none, some, ◌==◌,
  if◌then◌else◌, ℤ,
}
use xwp_server.CLib.{Bytes, codes, wrap_int}
use xwp_server.Http.ContentType.{http_content_type}
use xwp_server.Http.Headers.{str, Header, http_header_set}
use xwp_server.Request.{Method, get}

-- `struct stat`: what the handler reads of it.
pub record Stat : Type 0 where
  pub is_dir : Bool
  pub is_reg : Bool
  pub user_reads : Bool
  pub size : ℕ

-- What the handler sets of the request: `status`, `body_out.content_fd` (none is -1),
-- `body_out.content_len`, and the headers of the response.
pub record Answer : Type 0 where
  pub status : ℕ
  pub content_fd : Option ℕ
  pub content_len : ℤ
  pub headers_out : List Header

-- `strrchr(s, '.') + 1`
unfoldable pub extension : Bytes → Option Bytes
extension [] = none
extension (c ∷ s) = elim (extension s) [
  | some t ↦ some t
  | none ↦ if c == b'.' then some s else none
]

abbrev pub is_get : Method → Bool
is_get get = true
is_get _ = false

-- `path.len==1 && path.data[0]=='/'`
unfoldable pub is_slash : Bytes → Bool
is_slash (c ∷ []) = c == b'/'
is_slash _ = false

-- `sprintf(path, "%s%s", root, request_path)`
unfoldable pub file_path : Bytes → Bytes → Bytes → Bytes
unfolding is_slash
file_path root default_page path = root ++ (if is_slash path then default_page else path)

-- `S_ISDIR(st.st_mode) || !(S_ISREG(st.st_mode) && (S_IRUSR & st.st_mode))`
unfoldable pub is_forbidden : Stat → Bool
is_forbidden st = st.is_dir || not (st.is_reg && st.user_reads)

-- From `open` on.
unfoldable pub serve_file : Option ℕ → Stat → Bytes → Answer → Answer
unfolding extension
serve_file none st path a = record a { status = 404 }
serve_file (some fd) st path a = record a {
  content_fd = some fd;
  content_len = wrap_int (st.size % 2 ^ 32);
  headers_out =
      http_header_set a.headers_out (codes "Content-Type")
        (str (http_content_type (extension path)));
  status = 200;
}

module _ (stat : Bytes → Option Stat) (open_file : Bytes → Option ℕ)
    (root default_page : Bytes) where
  -- `module_default_handle_request`, which returns HTTP_MODULE_PROCESS_DONE on every path. The path of
  -- the URL is not NULL: it was matched with the location's pattern.
  unfoldable pub module_default_handle_request : Method → Bytes → Answer → Answer
  unfolding file_path is_forbidden serve_file
  module_default_handle_request method path a =
      let file = file_path root default_page path in
      let answer : Answer = elim (stat file) [
        | none ↦ record a { status = 404 }
        | some st ↦
            if is_forbidden st
            then record a { status = 403 }
            else serve_file (open_file file) st path a
      ] in
      if is_get method then answer else record a { status = 400 }

-- What `module_get_info` fills in: `name`, `author`, `description`, `version`.
pub record ModuleInfo : Type 0 where
  pub name : Bytes
  pub author : Bytes
  pub description : Bytes
  pub version : Bytes

unfoldable pub module_get_info : ModuleInfo
module_get_info = record {
  name = codes "default";
  author = codes "pengwu<wp.4163196@gmail.com>";
  description = codes "default request handler";
  version = codes "0.1";
}

-- `module_default_create`, whose allocation may fail: the module, by the configuration of its location.
unfoldable pub module_default_create {ℓ} : {A : Type ℓ} → Bool → A → Option A
module_default_create allocated ctx = if allocated then some ctx else none
