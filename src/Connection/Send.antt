-- ===== src/Connection/Send.antt =====
-- `connection_send_response` of src/connection.c, with the calls of `send` and `sendfile` that it
-- makes.
pub mod Delivered
pub mod Sent
pub mod Ends
use xwp_server.Base.{
  ℕ, Bool, true, false, List, [], ◌++◌, length, take, Option, none, some, ◌==◌, if◌then◌else◌,
}
use xwp_server.CLib.{Bytes}
use xwp_server.Connection.Response.{
  response_headers, connection_response_headers_len, response_text,
}
use xwp_server.Http.Headers.{Header}
use xwp_server.Http.Status.{http_status_line}
use xwp_server.Http.Table.{found, missing, out_of_range}
use xwp_server.Io.{Send, Outcome, wrote, blocked, nwrite}

-- `body_out`: nothing, the bytes of the file `content_fd`, or those at `content->pos`; there are
-- `content_len` of them.
pub data BodyOut : Type 0 where
  no_body : BodyOut
  file_body memory_body : Bytes → BodyOut

abbrev pub body_bytes : BodyOut → Bytes
body_bytes no_body = []
body_bytes (file_body s) = s
body_bytes (memory_body s) = s

-- How the function ends: its result, an `assert` that fails, a read behind the table of the status
-- lines, or not yet.
pub data Ending : Type 0 where
  returned : Bool → Ending
  aborted overread waiting : Ending

-- The body, once `text` was sent. `sendfile` returns -1, or how many bytes it has sent, which may be
-- fewer than there are; the result is 1 then, too. `nwrite` asserts that there are bytes to write.
unfoldable pub send_memory : Bytes → Bytes → Outcome × Bytes → Ending × Bytes
send_memory text s (wrote b, out) =
    if length s == 0 then (aborted, text) else (returned b, text ++ out)
send_memory text s (blocked, out) =
    if length s == 0 then (aborted, text) else (waiting, text ++ out)

unfoldable pub send_body : BodyOut → List Send → Option ℕ → Bytes → Ending × Bytes
unfolding send_memory
send_body no_body sends file_sent text = (returned true, text)
send_body (file_body s) sends none text = (returned false, text)
send_body (file_body s) sends (some k) text = (returned true, text ++ take k s)
send_body (memory_body s) sends file_sent text = send_memory text s (nwrite s sends)

unfoldable pub after_text : BodyOut → List Send → Option ℕ → Outcome × Bytes → Ending × Bytes
unfolding send_body
after_text body sends file_sent (wrote true, out) = send_body body sends file_sent out
after_text body sends file_sent (wrote false, out) = (returned false, out)
after_text body sends file_sent (blocked, out) = (waiting, out)

-- From the status line on: the text is printed, the `assert` of its length, and the calls.
unfoldable pub send_text :
    Bytes → Bytes → List Header → BodyOut → List Send → List Send → Option ℕ → Ending × Bytes
unfolding after_text
send_text text line headers body text_sends body_sends file_sent =
    let sent = after_text body body_sends file_sent (nwrite text text_sends) in
    if length text == connection_response_headers_len line headers then sent else (aborted, [])

unfoldable pub connection_send_response :
    Bool
    → Option Bytes
    → ℕ
    → List Header
    → BodyOut
    → List Send
    → List Send
    → Option ℕ
    → Ending × Bytes
unfolding send_text
connection_send_response keep_alive version status headers body text_sends body_sends file_sent =
    let set = response_headers keep_alive (length (body_bytes body)) headers in
    elim (http_status_line status) [
      | found line ↦
          send_text (response_text version line set) line set body text_sends body_sends file_sent
      | missing ↦ (aborted, [])
      | out_of_range ↦ (overread, [])
    ]
