-- ===== src/Parse/RequestLine.antt =====
-- `http_parse_request_line` of src/http_request.c.
pub mod Methods
pub mod Accepts
use xwp_server.Base.{ℕ, ◌+◌, ◌-◌, not, [], ◌∷◌, Option, none, some, if◌then◌else◌}
use xwp_server.CLib.{Bytes, codes, isspace, strcmp_eq, strncmp_eq, strncasecmp_eq}
use xwp_server.Memory.{Mem, seek, slice, Slice}
use xwp_server.Parse.Token.{find_next_eol, get_token}
use xwp_server.Parse.Url.{Code, parse_fail, parse_again, http_parse_url}
use xwp_server.Request.{Buf, Method, get, post, head, put, Version, http_10, http_11, Request}

-- `while(isspace(*pos) && pos<last && *pos!='\0') pos++`, up to `n` bytes
unfoldable pub skip_space : Mem → ℕ → ℕ → ℕ
unfolding isspace
skip_space m p n = seek (λ c. not (isspace c)) m p n

-- What stands behind the first "HTTP/" of a string: `strstr`, and `+= 5`.
unfoldable pub behind_http : Bytes → Option Bytes
behind_http [] = none
behind_http (c ∷ s) =
    if strncmp_eq (codes "HTTP/") (c ∷ s) 5 then some (drop_five (c ∷ s)) else behind_http s
  where
    drop_five : Bytes → Bytes
    drop_five (a ∷ b ∷ c ∷ d ∷ e ∷ s) = s
    drop_five s = s

-- "1.0" and "1.1" alone, up to the token's end.
unfoldable pub version_of : Bytes → Option Version
version_of s =
    if strcmp_eq s (codes "1.0")
    then some http_10
    else if strcmp_eq s (codes "1.1")
    then some http_11
    else none

-- The tests of `strncasecmp(method.data, ..., method.len)`, in order.
unfoldable pub method_of : Bytes → ℕ → Option Method
method_of s n =
    if strncasecmp_eq s (codes "GET") n
    then some get
    else if strncasecmp_eq s (codes "POST") n
    then some post
    else if strncasecmp_eq s (codes "HEAD") n
    then some head
    else if strncasecmp_eq s (codes "PUT") n
    then some put
    else none

-- `return http_parse_url(request, &request->url, &url)`
unfoldable pub url_field : Request → Buf → Slice → Code × Request × Buf
url_field r b url =
    let (code, m, u) = http_parse_url r.mem r.url url in (code, record r { mem = m; url = u }, b)

unfoldable pub method_field : Request → Buf → Slice → Slice → Code × Request × Buf
method_field r b method url = elim (method_of (slice r.mem method.at method.len) method.len) [
  | none ↦ (parse_fail, r, b)
  | some verb ↦ url_field (record r { method = verb; method_str = some method }) b url
]

unfoldable pub version_field : Request → Buf → Slice → Slice → Option Bytes → Code × Request × Buf
version_field r b method url none = (parse_fail, r, b)
version_field r b method url (some number) = elim (version_of number) [
  | none ↦ (parse_fail, r, b)
  | some v ↦ method_field (record r { version = v }) b method url
]

-- The request's fields, from the three tokens: the version first, then the method, then the URL.
unfoldable pub request_fields : Request → Buf → Slice → Slice → Slice → Code × Request × Buf
request_fields r b method url version =
    version_field (record r { version_str = some version }) b method url
      (behind_http (slice r.mem version.at version.len))

-- The three calls of `get_token` from `p` on. Once one fails, so do the later ones, which then read
-- the same bytes.
unfoldable pub request_tokens : Request → Buf → ℕ → ℕ → Code × Request × Buf
request_tokens r b p eol = elim (get_token isspace r.mem p (b.end - p)) [
  | none ↦ (parse_fail, r, b)
  | some t1 ↦ elim (get_token isspace t1.mem t1.rest (b.end - t1.rest)) [
    | none ↦ (parse_fail, record r { mem = t1.mem }, b)
    | some t2 ↦ elim (get_token isspace t2.mem t2.rest (b.end - t2.rest)) [
      | none ↦ (parse_fail, record r { mem = t2.mem }, b)
      | some t3 ↦
          request_fields (record r { mem = t3.mem }) (record b { pos = eol + 1 }) t1.token t2.token
            t3.token
    ]
  ]
]

unfoldable pub http_parse_request_line : Request → Buf → Code × Request × Buf
http_parse_request_line r b =
    let p = skip_space r.mem b.pos (b.last - b.pos) in
    elim (find_next_eol r.mem p (b.end - p)) [
      | none ↦ (parse_again, r, record b { pos = p })
      | some eol ↦ request_tokens r (record b { pos = p }) p eol
    ]
