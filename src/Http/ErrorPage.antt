-- ===== src/Http/ErrorPage.antt =====
-- `http_error_pages` and `http_error_page` of src/http.c.
pub mod Laws
use xwp_server.Base.{ℕ, List, [], ◌∷◌, ◌++◌, Option, none, some}
use xwp_server.CLib.{Bytes, codes}
use xwp_server.Http.Table.{Lookup, found, missing, out_of_range, search}

abbrev pub xwp_server_ver : Bytes
xwp_server_ver = codes "xwp server 0.1"

abbrev crlf : Bytes
crlf = codes "\r\n"

-- The text that the pages `http_error_301_page` to `http_error_507_page` have in common.
unfoldable pub page : Bytes → Bytes → Bytes
page title heading =
    codes "<html>"
    ++ crlf
    ++ codes "<head><title>"
    ++ title
    ++ codes "</title></head>"
    ++ crlf
    ++ codes "<body bgcolor=\"white\">"
    ++ crlf
    ++ codes "<center><h1>"
    ++ heading
    ++ codes "</h1></center>"
    ++ crlf

-- The pages that say more below the heading.
unfoldable pub page_with : Bytes → Bytes → Bytes → Bytes
unfolding page
page_with title heading note =
    page title heading ++ codes "<center>" ++ note ++ codes "</center>" ++ crlf

-- `http_error_full_tail`
unfoldable pub http_error_full_tail : Bytes
http_error_full_tail =
    codes "<hr><center>"
    ++ xwp_server_ver
    ++ codes "</center>"
    ++ crlf
    ++ codes "</body>"
    ++ crlf
    ++ codes "</html>"
    ++ crlf

abbrev pub http_error_pages : List (ℕ × Bytes)
http_error_pages =
    (301, page (codes "301 Moved Permanently") (codes "301 Moved Permanently"))
    ∷ (302, page (codes "302 Found") (codes "302 Found"))
    ∷ (303, page (codes "303 See Other") (codes "303 See Other"))
    ∷ (307, page (codes "307 Temporary Redirect") (codes "307 Temporary Redirect"))
    ∷ (400, page (codes "400 Bad Request") (codes "400 Bad Request"))
    ∷ (401, page (codes "401 Authorization Required") (codes "401 Authorization Required"))
    ∷ (402, page (codes "402 Payment Required") (codes "402 Payment Required"))
    ∷ (403, page (codes "403 Forbidden") (codes "403 Forbidden"))
    ∷ (404, page (codes "404 Not Found") (codes "404 Not Found"))
    ∷ (405, page (codes "405 Not Allowed") (codes "405 Not Allowed"))
    ∷ (406, page (codes "406 Not Acceptable") (codes "406 Not Acceptable"))
    ∷ (408, page (codes "408 Request Time-out") (codes "408 Request Time-out"))
    ∷ (409, page (codes "409 Conflict") (codes "409 Conflict"))
    ∷ (410, page (codes "410 Gone") (codes "410 Gone"))
    ∷ (411, page (codes "411 Length Required") (codes "411 Length Required"))
    ∷ (412, page (codes "412 Precondition Failed") (codes "412 Precondition Failed"))
    ∷ (413, page (codes "413 Request Entity Too Large") (codes "413 Request Entity Too Large"))
    ∷ (414, page (codes "414 Request-URI Too Large") (codes "414 Request-URI Too Large"))
    ∷ (415, page (codes "415 Unsupported Media Type") (codes "415 Unsupported Media Type"))
    ∷ (
      416,
      page (codes "416 Requested Range Not Satisfiable")
          (codes "416 Requested Range Not Satisfiable"),
    )
    ∷ (
      494,
      page_with (codes "400 Request Header Or Cookie Too Large") (codes "400 Bad Request")
          (codes "Request Header Or Cookie Too Large"),
    )
    ∷ (
      495,
      page_with (codes "400 The SSL certificate error") (codes "400 Bad Request")
          (codes "The SSL certificate error"),
    )
    ∷ (
      496,
      page_with (codes "400 No required SSL certificate was sent") (codes "400 Bad Request")
          (codes "No required SSL certificate was sent"),
    )
    ∷ (
      497,
      page_with (codes "400 The plain HTTP request was sent to HTTPS port")
          (codes "400 Bad Request") (codes "The plain HTTP request was sent to HTTPS port"),
    )
    ∷ (404, page (codes "404 Not Found") (codes "404 Not Found"))
    ∷ (500, page (codes "500 Internal Server Error") (codes "500 Internal Server Error"))
    ∷ (501, page (codes "501 Method Not Implemented") (codes "501 Method Not Implemented"))
    ∷ (502, page (codes "502 Bad Gateway") (codes "502 Bad Gateway"))
    ∷ (
      503,
      page (codes "503 Service Temporarily Unavailable")
          (codes "503 Service Temporarily Unavailable"),
    )
    ∷ (504, page (codes "504 Gateway Time-out") (codes "504 Gateway Time-out"))
    ∷ (507, page (codes "507 Insufficient Storage") (codes "507 Insufficient Storage"))
    ∷ []

-- `if(err_msg != NULL && err_msg->len > 0)`: an empty message adds nothing either way.
unfoldable pub message : Option Bytes → Bytes
message none = []
message (some msg) = msg

-- The page's text with the message and the tail behind it. Allocations are taken to succeed; `none`
-- is the NULL of a status that has no page.
unfoldable pub http_error_page : ℕ → Option Bytes → Lookup (Option Bytes)
unfolding http_error_full_tail message
http_error_page status err_msg = elim (search http_error_pages status) [
  | found text ↦ found (some (text ++ message err_msg ++ http_error_full_tail))
  | missing ↦ found none
  | out_of_range ↦ out_of_range
]
