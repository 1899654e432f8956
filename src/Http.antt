-- ===== src/Http.antt =====
-- src/http.c and src/http.h: the tables of status lines and error pages, the content types, and
-- the header list of a request or a response.
pub mod Table
pub mod Status
pub mod ErrorPage
pub mod ContentType
pub mod Headers
