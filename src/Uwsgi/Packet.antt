-- ===== src/Uwsgi/Packet.antt =====
-- `upstream_uwsgi_add_param`, `upstream_uwsgi_calc_packet_len` and the packet that
-- `upstream_uwsgi_process` fills in, all of src/module_uwsgi.c, and `uint16_little_endian` of
-- src/utils.c. Every string is NUL-terminated at its `len`, as the source asserts, so it is its bytes;
-- one that is NULL or empty is `[]`.
pub mod Len
pub mod Decode
use xwp_server.Base.{
  ℕ, ◌+◌, ◌-◌, ◌/◌, ◌%◌, ◌^◌, Bool, ◌||◌, ◌&&◌, List, [], ◌∷◌, ◌++◌, map, length, ◌==◌, leb,
  if◌then◌else◌,
}
use xwp_server.CLib.{Bytes, codes, strncasecmp_eq}
use xwp_server.Http.ErrorPage.{xwp_server_ver}

unfoldable pub uint16_little_endian : ℕ → Bytes
uint16_little_endian d = d % 256 ∷ d / 256 % 256 ∷ []

unfoldable pub upstream_uwsgi_add_param : Bytes → Bytes → Bytes
unfolding uint16_little_endian
upstream_uwsgi_add_param name value =
    uint16_little_endian (length name) ++ (name ++ (uint16_little_endian (length value) ++ value))

-- What the packet is made of, from the request, its location and the configuration.
pub record Env : Type 0 where
  pub query_string : Bytes
  pub method_str : Bytes
  pub content_type : Bytes
  pub content_len : Bytes
  pub unparsed_url : Bytes
  pub path : Bytes
  pub root : Bytes
  pub version_str : Bytes
  pub remote_ip : Bytes
  pub server_ip : Bytes
  pub server_port : Bytes
  pub server_name : Bytes
  pub headers : List (Bytes × Bytes)

-- Both tests compare as many bytes as "Content-Type" has.
unfoldable pub is_content_header : Bytes → Bool
is_content_header name =
    strncasecmp_eq name (codes "Content-Type") 12 || strncasecmp_eq name (codes "Content-Length") 12

-- `datasize += n`, on a uint16_t
abbrev pub add16 : ℕ → ℕ → ℕ
add16 d n = (d + n) % 2 ^ 16

-- The loop over the headers.
unfoldable pub add_headers_len : ℕ → List (Bytes × Bytes) → ℕ
add_headers_len d [] = d
add_headers_len d ((name, value) ∷ headers) =
    add_headers_len
      (if is_content_header name then d else add16 d (5 + length name + length value + 4)) headers

-- One `datasize += CGI_....len + ....len + 4`
abbrev add_len : Bytes → Bytes → ℕ → ℕ
add_len name value d = add16 d (length name + length value + 4)

-- The sum before the loop over the headers.
unfoldable pub fixed_len : Env → ℕ
fixed_len e =
    let d1 = add_len (codes "QUERY_STRING") e.query_string 0 in
    let d2 = add_len (codes "REQUEST_METHOD") e.method_str d1 in
    let d3 = add_len (codes "CONTENT_TYPE") e.content_type d2 in
    let d4 = add_len (codes "CONTENT_LENGTH") e.content_len d3 in
    let d5 = add_len (codes "REQUEST_URI") e.unparsed_url d4 in
    let d6 = add_len (codes "PATH_INFO") e.path d5 in
    let d7 = add_len (codes "DOCUMENT_ROOT") e.root d6 in
    let d8 = add_len (codes "SERVER_PROTOCOL") e.version_str d7 in
    let d9 = add_len (codes "SERVER_SOFTWARE") xwp_server_ver d8 in
    let d10 = add_len (codes "REMOTE_ADDR") e.remote_ip d9 in
    let d11 = add_len (codes "SERVER_ADDR") e.server_ip d10 in
    let d12 = add_len (codes "SERVER_PORT") e.server_port d11 in
    add_len (codes "SERVER_NAME") e.server_name d12

unfoldable pub upstream_uwsgi_calc_packet_len : Env → ℕ
unfolding fixed_len add_headers_len
upstream_uwsgi_calc_packet_len e = add_headers_len (fixed_len e) e.headers

-- The loop over the bytes of a header's name.
unfoldable pub cgi_byte : ℕ → ℕ
cgi_byte c = if c == b'-' then b'_' else if leb b'a' c && leb c b'z' then c - 32 else c

unfoldable pub cgi_name : Bytes → Bytes
cgi_name name = codes "HTTP_" ++ map cgi_byte name

-- The variables, in the order in which they are written.
unfoldable pub cgi_params : Env → List (Bytes × Bytes)
cgi_params e =
    (codes "QUERY_STRING", e.query_string)
    ∷ (codes "REQUEST_METHOD", e.method_str)
    ∷ (codes "CONTENT_TYPE", e.content_type)
    ∷ (codes "CONTENT_LENGTH", e.content_len)
    ∷ (codes "REQUEST_URI", e.path)
    ∷ (codes "PATH_INFO", e.unparsed_url)
    ∷ (codes "DOCUMENT_ROOT", e.root)
    ∷ (codes "SERVER_PROTOCOL", e.version_str)
    ∷ (codes "SERVER_SOFTWARE", xwp_server_ver)
    ∷ (codes "REMOTE_ADDR", e.remote_ip)
    ∷ (codes "SERVER_ADDR", e.server_ip)
    ∷ (codes "SERVER_PORT", e.server_port)
    ∷ (codes "SERVER_NAME", e.server_name)
    ∷ []

-- The loop over the headers, which writes a header as `upstream_uwsgi_add_param` writes a variable.
unfoldable pub header_params : List (Bytes × Bytes) → List (Bytes × Bytes)
unfolding cgi_name
header_params [] = []
header_params ((name, value) ∷ headers) =
    let rest = header_params headers in
    if is_content_header name then rest else (cgi_name name, value) ∷ rest

unfoldable pub add_params : List (Bytes × Bytes) → Bytes
add_params [] = []
add_params ((name, value) ∷ params) = upstream_uwsgi_add_param name value ++ add_params params

-- What stands behind the packet's header of four bytes.
unfoldable pub packet_vars : Env → Bytes
packet_vars e = add_params (cgi_params e ++ header_params e.headers)

-- `modifier1`, the size, `modifier2`, and the variables.
unfoldable pub upstream_uwsgi_packet : ℕ → ℕ → Env → Bytes
unfolding uint16_little_endian
upstream_uwsgi_packet modifier1 modifier2 e =
    modifier1 ∷ uint16_little_endian (upstream_uwsgi_calc_packet_len e) ++ modifier2 ∷ packet_vars e
