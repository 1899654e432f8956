-- ===== src/Connection/Response.antt =====
-- `connection_response_headers_len`, the text that `connection_send_response` prints, and
-- `connection_special_response`, all of src/connection.c.
pub mod Length
pub mod Announced
use xwp_server.Base.{
  ℕ, ◌+◌, Bool, false, List, [], ◌∷◌, ◌++◌, length, Option, none, some, leb, ltb, if◌then◌else◌,
}
use xwp_server.CLib.Decimal.{decimal}
use xwp_server.CLib.{Bytes, codes}
use xwp_server.Http.ErrorPage.{xwp_server_ver, http_error_page}
use xwp_server.Http.Headers.{str, Header, http_header_set}
use xwp_server.Http.Table.{Lookup, found, missing, out_of_range}

abbrev crlf : Bytes
crlf = codes "\r\n"

-- The headers that are set before the response is printed.
unfoldable pub response_headers : Bool → ℕ → List Header → List Header
response_headers keep_alive content_len headers =
    let connection = if keep_alive then codes "Keep-Alive" else codes "Close" in
    let with_connection = http_header_set headers (codes "Connection") (str connection) in
    let with_server = http_header_set with_connection (codes "Server") (str xwp_server_ver) in
    let content = if ltb 0 content_len then decimal content_len else codes "0" in
    http_header_set with_server (codes "Content-Length") (str content)

-- The loop over the headers.
unfoldable pub headers_len : List Header → ℕ
headers_len [] = 0
headers_len (h ∷ headers) = length h.name + h.value.len + 4 + headers_len headers

-- `sizeof("HTTP/1.x ") - 1`, the status line, its line end, the headers, and the empty line.
unfoldable pub connection_response_headers_len : Bytes → List Header → ℕ
unfolding headers_len
connection_response_headers_len line headers = 9 + length line + 2 + headers_len headers + 2

-- `%s` of a string; glibc prints NULL so.
unfoldable pub printed : Option Bytes → Bytes
printed none = codes "(null)"
printed (some s) = s

unfoldable pub header_lines : List Header → Bytes
unfolding printed
header_lines [] = []
header_lines (h ∷ headers) =
    h.name ++ (codes ": " ++ (printed h.value.text ++ (crlf ++ header_lines headers)))

-- What the calls of `snprintf` print in all; `num` counts its bytes.
unfoldable pub response_text : Option Bytes → Bytes → List Header → Bytes
unfolding printed header_lines
response_text version line headers =
    printed version ++ (codes " " ++ (line ++ (crlf ++ (header_lines headers ++ crlf))))

-- The body of a response without one: the page of the status, and whether the connection stays open.
unfoldable pub connection_special_response :
    ℕ → Option Bytes → Option Bytes → Bool → Lookup (Option Bytes × Bool)
connection_special_response status err_msg (some body) keep_alive = found (some body, keep_alive)
connection_special_response status err_msg none keep_alive = elim (http_error_page status err_msg) [
  | found page ↦ found (page, if leb 400 status then false else keep_alive)
  | missing ↦ missing
  | out_of_range ↦ out_of_range
]
