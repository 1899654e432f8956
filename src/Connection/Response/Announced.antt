-- ===== src/Connection/Response/Announced.antt =====
-- The length that a response announces, read as a client of the same code reads it.
use xwp_server.Base.{
  ℕ, ◌^◌, ◌<◌, ◌≡◌, refl, ap, ◌∙◌, Bool, true, List, [], ◌∷◌, length, some, ltb, pos, arith,
  Bool-cases, inl, inr, if◌then◌else◌,
}
use xwp_server.CLib.Compare.{agree_self, differ, agree-differ}
use xwp_server.CLib.Decimal.{decimal, atoi-decimal}
use xwp_server.CLib.{Bytes, codes, atoi, tolower, strncmp_eq}
use xwp_server.Connection.Response.{response_headers}
use xwp_server.Http.ErrorPage.{xwp_server_ver}
use xwp_server.Http.Headers.Laws.{SameCase, http_header_str-set}
use xwp_server.Http.Headers.{
  Str, str, Header, http_header_set, http_header_str, http_header_int, text_int, value,
}

-- Setting a header with a name that differs leaves the stored names as they were, but for itself.
SameCase-set :
    (headers : List Header) (name other : Bytes) (v : Str)
    → differ name other ≡ true
    → SameCase name headers
    → SameCase name (http_header_set headers other v)
unfolding http_header_set
SameCase-set [] name other v d s =
    (λ e. ground (arith, agree-differ name other other d (agree_self (λ c. c) other)), tt)
SameCase-set (h ∷ headers) name other v d s =
    elim (Bool-cases (strncmp_eq other h.name (length other))) [
      | inl same ↦ rw same (s.0, s.1)
      | inr new ↦ rw new (s.0, SameCase-set headers name other v d s.1)
    ]

http_header_int-text :
    (headers : List Header) (name text : Bytes)
    → http_header_str headers name ≡ some (str text)
    → http_header_int headers name ≡ value (atoi text)
unfolding http_header_int text_int
http_header_int-text headers name text e = rw (e, http_header_int) refl

differ_connection : differ (codes "Content-Length") (codes "Connection") ≡ true
unfolding differ tolower
differ_connection = refl

differ_server : differ (codes "Content-Length") (codes "Server") ≡ true
unfolding differ tolower
differ_server = refl

content_text : ℕ → Bytes
content_text n = if ltb 0 n then decimal n else codes "0"

atoi-content_text : (n : ℕ) → n < 2 ^ 31 → atoi (content_text n) ≡ pos n
unfolding content_text decimal
atoi-content_text n h = elim (Bool-cases (ltb 0 n)) [
  | inl more ↦ rw more (atoi-decimal n h)
  | inr nothing ↦
      let none_left : n ≡ 0 = ground arith in rw none_left (atoi-decimal 0 (omega arith))
]

-- Reading "Content-Length" from the headers of a response gives the length of its body, if that is an
-- `int`, and each header of the handler whose name begins with "Content-Length" without regard to
-- case begins with it as it is written.
pub http_header_int-response_headers :
    (keep_alive : Bool) (n : ℕ) (headers : List Header)
    → n < 2 ^ 31
    → SameCase (codes "Content-Length") headers
    → http_header_int (response_headers keep_alive n headers) (codes "Content-Length")
      ≡ value (pos n)
unfolding response_headers content_text
http_header_int-response_headers keep_alive n headers h s =
    let connection : Bytes = if keep_alive then codes "Keep-Alive" else codes "Close" in
    let one = http_header_set headers (codes "Connection") (str connection) in
    let two = http_header_set one (codes "Server") (str xwp_server_ver) in
    let same_one =
      SameCase-set headers (codes "Content-Length") (codes "Connection") (str connection)
        differ_connection s in
    let same_two =
      SameCase-set one (codes "Content-Length") (codes "Server") (str xwp_server_ver) differ_server
        same_one in
    http_header_int-text (http_header_set two (codes "Content-Length") (str (content_text n)))
      (codes "Content-Length") (content_text n)
      (http_header_str-set two (codes "Content-Length") (str (content_text n)) same_two)
    ∙ ap value (atoi-content_text n h)
