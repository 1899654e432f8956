-- ===== src/Connection/Response/Length.antt =====
-- The length that is computed and the length that is printed.
use xwp_server.Base.{◌+◌, ◌≡◌, ◌↔◌, refl, List, [], ◌∷◌, ◌++◌, length, length-append, Option, arith}
use xwp_server.CLib.{Bytes, codes}
use xwp_server.Http.Headers.{Header}
use xwp_server.Connection.Response.{
  headers_len, connection_response_headers_len, printed, header_lines, response_text,
}

-- The `len` of each value is the length of what is printed for it.
abbrev pub Measured : List Header → Type 0
Measured [] = Unit {0}
Measured (h ∷ headers) = (h.value.len ≡ length (printed h.value.text)) × Measured headers

length-header_lines :
    (headers : List Header) → Measured headers → length (header_lines headers) ≡ headers_len headers
unfolding header_lines headers_len
length-header_lines [] m = refl
length-header_lines (h ∷ headers) m = omega (
  arith,
  length-append h.name
      (codes ": " ++ (printed h.value.text ++ (codes "\r\n" ++ header_lines headers))),
  length-append (printed h.value.text) (codes "\r\n" ++ header_lines headers),
  length-header_lines headers m.1,
  m.0,
)

length-response_text :
    (version : Option Bytes) (line : Bytes) (headers : List Header)
    → Measured headers
    → length (response_text version line headers) + 8
      ≡ connection_response_headers_len line headers + length (printed version)
unfolding response_text connection_response_headers_len
length-response_text version line headers m = omega (
  arith,
  length-append (printed version)
      (codes " " ++ (line ++ (codes "\r\n" ++ (header_lines headers ++ codes "\r\n")))),
  length-append line (codes "\r\n" ++ (header_lines headers ++ codes "\r\n")),
  length-append (header_lines headers) (codes "\r\n"),
  length-header_lines headers m,
)

-- `assert(num == headers_len)` holds for exactly those responses whose version is printed with eight
-- bytes, provided that the length kept with each header's value is that of its text.
pub response_length_iff :
    (version : Option Bytes) (line : Bytes) (headers : List Header)
    → Measured headers
    → (length (response_text version line headers) ≡ connection_response_headers_len line headers)
      ↔ (length (printed version) ≡ 8)
response_length_iff version line headers m = (
  λ e. omega (arith, length-response_text version line headers m, e),
  λ e. omega (arith, length-response_text version line headers m, e),
)
