-- ===== src/Parse.antt =====
-- The parsers of src/http_request.c.
pub mod Token
pub mod Url
pub mod RequestLine
pub mod HeaderLine
pub mod StatusLine
