-- ===== src/Http/ContentType.antt =====
-- `http_content_type` of src/http.c.
use xwp_server.Base.{List, [], ◌∷◌, Option, none, some, if◌then◌else◌}
use xwp_server.CLib.{Bytes, codes, strcmp_eq}

-- The tests of the chain, in order.
abbrev pub content_types : List (Bytes × Bytes)
content_types =
    (codes "", codes "application/octet-stream")
    ∷ (codes "exe", codes "application/octet-stream")
    ∷ (codes "js", codes "text/html")
    ∷ (codes "gif", codes "image/gif")
    ∷ (codes "bmp", codes "image/x-xbitmap")
    ∷ (codes "jpg", codes "image/jpeg")
    ∷ (codes "png", codes "image/png")
    ∷ (codes "ico", codes "image/x-icon")
    ∷ (codes "htm", codes "text/html")
    ∷ (codes "asp", codes "text/html")
    ∷ (codes "php", codes "text/html")
    ∷ (codes "html", codes "text/html")
    ∷ (codes "mht", codes "text/html")
    ∷ (codes "xml", codes "text/xml")
    ∷ (codes "txt", codes "text/plain")
    ∷ (codes "c", codes "text/plain")
    ∷ (codes "cpp", codes "text/plain")
    ∷ (codes "hpp", codes "text/plain")
    ∷ (codes "h", codes "text/plain")
    ∷ (codes "lrc", codes "text/plain")
    ∷ (codes "pdf", codes "application/pdf")
    ∷ (codes "avi", codes "video/avi")
    ∷ (codes "css", codes "text/css")
    ∷ (codes "swf", codes "application/x-shockwave-flash")
    ∷ (codes "flv", codes "application/x-shockwave-flash")
    ∷ (codes "xls", codes "application/vnd.ms-excel")
    ∷ (codes "doc", codes "application/vnd.ms-word")
    ∷ (codes "mid", codes "audio/midi")
    ∷ (codes "mp3", codes "audio/mpeg")
    ∷ (codes "ogg", codes "audio/ogg")
    ∷ (codes "rm", codes "application/vnd.rn-realmedia")
    ∷ (codes "rmvb", codes "application/vnd.rn-realmedia")
    ∷ (codes "wav", codes "audio/wav")
    ∷ (codes "wmv", codes "video/x-ms-wmv")
    ∷ (codes "zip", codes "application/x-tar")
    ∷ (codes "rar", codes "application/x-tar")
    ∷ (codes "7z", codes "application/x-tar")
    ∷ (codes "tar", codes "application/x-tar")
    ∷ (codes "gz", codes "application/x-tar")
    ∷ []

-- The chain of `else if(strcmp(extension, ...) == 0)`, which ends in "text/html".
unfoldable pub first_type : List (Bytes × Bytes) → Bytes → Bytes
first_type [] extension = codes "text/html"
first_type ((e, t) ∷ rest) extension =
    if strcmp_eq extension e then t else first_type rest extension

-- `none` is a NULL extension.
unfoldable pub http_content_type : Option Bytes → Bytes
unfolding first_type
http_content_type none = codes "text/html"
http_content_type (some extension) = first_type content_types extension
