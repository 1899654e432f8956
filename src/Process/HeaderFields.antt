-- ===== src/Process/HeaderFields.antt =====
-- `http_process_header_line` of src/http_request.c: the fields that it takes from the headers.
pub mod Read
use xwp_server.Base.{Bool, true, false, List, Option, none, some, if◌then◌else◌, ℤ, pos, negsuc}
use xwp_server.CLib.{Bytes, codes, strncasecmp_eq, tolower, agree}
use xwp_server.Http.Headers.{Str, Access, value, http_header_str, http_header_int}
use xwp_server.Process.{
  Recv, Reply, returned, null_read, Phase, request_phase, response_phase, header_parser, line_loop,
}
use xwp_server.Request.{Version, http_10, http_11, Request, stat_header_line}

-- `HTTP_HEADER_CONTENT_LEN`, `HTTP_HEADER_KEEPALIVE`, `HTTP_HEADER_EXPECT`
abbrev pub header_content_len : Bytes
header_content_len = codes "Content-Length"

abbrev pub header_keepalive : Bytes
header_keepalive = codes "Keep-Alive"

abbrev pub header_expect : Bytes
header_expect = codes "Expect"

-- `version == HTTP_VERSION_11`
abbrev pub is_http_11 : Version → Bool
is_http_11 http_10 = false
is_http_11 http_11 = true

-- `strncasecmp(keep_alive->data, "CLOSE", keep_alive->len) == 0`; with a length of 0 nothing is read.
unfoldable pub says_close : Str → Bool
says_close v = elim v.text [ none ↦ true | some s ↦ strncasecmp_eq s (codes "CLOSE") v.len ]

unfoldable pub keep_alive_of : Version → Option Str → Bool
unfolding says_close
keep_alive_of v none = is_http_11 v
keep_alive_of v (some h) = if says_close h then false else true

-- `if(content_len < 0) content_len = 0`
abbrev pub not_negative : ℤ → ℤ
not_negative (pos n) = pos n
not_negative (negsuc n) = pos 0

-- `strcasecmp(expect->data, "100-continue") == 0`, whole strings
unfoldable pub expects_continue : Bytes → Bool
expects_continue s = agree tolower 13 s (codes "100-continue")

-- What is sent to a client that asks for it with `Expect`.
abbrev pub continue_text : Bytes
continue_text = codes "HTTP/1.1 100 Continue\r\n\r\n"

-- The answer to `Expect`: `can_send` is the result of `nwrite` for `continue_text`, and `continued`
-- says that it was called.
unfoldable pub answer_expect : Bool → Option Str → Request → Reply × Request
unfolding expects_continue
answer_expect can_send none r = (returned true, r)
answer_expect can_send (some h) r = elim h.text [
  | none ↦ (null_read, r)
  | some s ↦
      if expects_continue s
      then (returned can_send, record r { continued = true })
      else (returned true, r)
]

-- The request's fields. `atoi` of a header with no value reads through NULL.
unfoldable pub request_header_fields : Bool → Request → Reply × Request
unfolding keep_alive_of answer_expect
request_header_fields can_send r = elim (http_header_int r.headers_in header_content_len) [
  | Access.null_read ↦ (null_read, r)
  | value n ↦ answer_expect can_send (http_header_str r.headers_in header_expect) (record r {
    in_content_len = not_negative n;
    keep_alive = keep_alive_of r.version (http_header_str r.headers_in header_keepalive);
  })
]

unfoldable pub response_header_fields : Request → Reply × Request
response_header_fields r = elim (http_header_int r.headers_out header_content_len) [
  | Access.null_read ↦ (null_read, r)
  | value n ↦ (returned true, record r { out_content_len = n })
]

-- What follows the loop, where it ended by `break`.
unfoldable pub header_fields : Phase → Bool → Reply → Request → Reply × Request
unfolding request_header_fields response_header_fields
header_fields request_phase can_send (returned true) r = request_header_fields can_send r
header_fields response_phase can_send (returned true) r = response_header_fields r
header_fields phase can_send reply r = (reply, r)

unfoldable pub http_process_header_line : Phase → Bool → Request → List Recv → Reply × Request
unfolding line_loop header_fields
http_process_header_line phase can_send r events =
    let (reply, r') =
      line_loop (header_parser phase) events (record r { state = stat_header_line }) in
    header_fields phase can_send reply r'
