-- ===== src/Http/Status.antt =====
-- `http_status_infos` and `http_status_line` of src/http.c.
pub mod Laws
use xwp_server.Base.{ℕ, List, [], ◌∷◌}
use xwp_server.CLib.{Bytes, codes}
use xwp_server.Http.Table.{Lookup, search}

-- The status lines, by their codes.
abbrev pub http_status_infos : List (ℕ × Bytes)
http_status_infos =
    (200, codes "200 OK")
    ∷ (201, codes "201 Created")
    ∷ (202, codes "202 Accepted")
    ∷ (204, codes "204 No Content")
    ∷ (206, codes "206 Partial Content")
    ∷ (301, codes "301 Moved Permanently")
    ∷ (302, codes "302 Moved Temporarily")
    ∷ (303, codes "303 See Other")
    ∷ (304, codes "304 Not Modified")
    ∷ (307, codes "307 Temporary Redirect")
    ∷ (400, codes "400 Bad Request")
    ∷ (401, codes "401 Unauthorized")
    ∷ (402, codes "402 Payment Required")
    ∷ (403, codes "403 Forbidden")
    ∷ (404, codes "404 Not Found")
    ∷ (405, codes "405 Not Allowed")
    ∷ (406, codes "406 Not Acceptable")
    ∷ (408, codes "408 Request Time-out")
    ∷ (409, codes "409 Conflict")
    ∷ (410, codes "410 Gone")
    ∷ (411, codes "411 Length Required")
    ∷ (412, codes "412 Precondition Failed")
    ∷ (413, codes "413 Request Entity Too Large")
    ∷ (415, codes "415 Unsupported Media Type")
    ∷ (416, codes "416 Requested Range Not Satisfiable")
    ∷ (500, codes "500 Internal Server Error")
    ∷ (501, codes "501 Method Not Implemented")
    ∷ (502, codes "502 Bad Gateway")
    ∷ (503, codes "503 Service Temporarily Unavailable")
    ∷ (504, codes "504 Gateway Time-out")
    ∷ (507, codes "507 Insufficient Storage")
    ∷ []

-- The line, or `missing` where the code runs into `assert(0)`.
unfoldable pub http_status_line : ℕ → Lookup Bytes
http_status_line status = search http_status_infos status
