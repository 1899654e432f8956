-- ===== src/Connection/Send/Ends.antt =====
-- A response that the socket takes is sent whole.
use xwp_server.Base.{
  ℕ, ◌≤◌, ◌≡◌, refl, sym, ap, Bool, true, false, List, ◌++◌, length, Option, some, ◌==◌, append_nil,
  take_all, arith,
}
use xwp_server.CLib.{Bytes}
use xwp_server.Connection.Response.Length.{Measured, response_length_iff}
use xwp_server.Connection.Response.{
  response_headers, printed, response_text, connection_response_headers_len,
}
use xwp_server.Connection.Send.Delivered.{HasBytes, Measured-response_headers}
use xwp_server.Connection.Send.{
  BodyOut, no_body, file_body, memory_body, body_bytes, returned, send_memory, send_body,
  after_text, send_text, connection_send_response,
}
use xwp_server.Http.Headers.{Header}
use xwp_server.Http.Status.{http_status_line}
use xwp_server.Http.Table.{found}
use xwp_server.Io.Written.{takes, nwrite_ends}
use xwp_server.Io.{Send}

-- The socket takes the body: `sendfile` sends all of the file.
abbrev pub TakesBody : BodyOut → List Send → Option ℕ → Type 0
TakesBody no_body sends file_sent = Unit {0}
TakesBody (file_body s) sends file_sent = file_sent ≡ some (length s)
TakesBody (memory_body s) sends file_sent = length s ≤ takes sends

send_body_ends :
    (text : Bytes) (body : BodyOut) (sends : List Send) (file_sent : Option ℕ)
    → HasBytes body
    → TakesBody body sends file_sent
    → send_body body sends file_sent text ≡ (returned true, text ++ body_bytes body)
unfolding send_body send_memory
send_body_ends text no_body sends file_sent h t =
    ap (λ l. (returned true, l)) (sym (append_nil text))
send_body_ends text (file_body s) sends file_sent h t =
    rw t (ap (λ l. (returned true, text ++ l)) (take_all s (length s) (omega arith)))
send_body_ends text (memory_body s) sends file_sent h t =
    let some_bytes : (length s == 0) ≡ false = ground arith in
    rw (nwrite_ends s sends t, send_body, some_bytes) refl

-- For a status with a status line, a version that is printed with eight bytes, headers whose values have
-- their length with them, and a body in memory that has bytes: if the calls of `send` in front of one
-- that is refused take the text and the body, and `sendfile` sends the whole file, then the result is
-- 1, and the peer has got exactly the text of the response and the body.
pub connection_send_response_ends :
    (keep_alive : Bool) (version : Option Bytes) (status : ℕ) (line : Bytes) (headers : List Header)
    (body : BodyOut) (text_sends body_sends : List Send) (file_sent : Option ℕ)
    → http_status_line status ≡ found line
    → length (printed version) ≡ 8
    → Measured headers
    → HasBytes body
    → length (
        response_text version line (response_headers keep_alive (length (body_bytes body)) headers))
      ≤ takes text_sends
    → TakesBody body body_sends file_sent
    → connection_send_response keep_alive version status headers body text_sends body_sends
        file_sent
      ≡ (
        returned true,
        response_text version line (response_headers keep_alive (length (body_bytes body)) headers)
            ++ body_bytes body,
      )
unfolding connection_send_response
connection_send_response_ends keep_alive version status line headers body text_sends body_sends
      file_sent e v m h t b =
    let set = response_headers keep_alive (length (body_bytes body)) headers in
    let text = response_text version line set in
    let fits =
      (response_length_iff version line set
          (Measured-response_headers keep_alive (length (body_bytes body)) headers m)).1
        v in
    let eq : (length text == connection_response_headers_len line set) ≡ true = ground arith in
    rw (e, connection_send_response)
      (rw (eq, send_text)
        (rw (nwrite_ends text text_sends t, after_text)
          (send_body_ends text body body_sends file_sent h b)))
