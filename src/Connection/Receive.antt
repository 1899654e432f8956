-- ===== src/Connection/Receive.antt =====
-- `connection_gen_request` of src/connection.c: the request line, the header lines and the body, one
-- after another, and the test of the status behind it in `connection_run`. Each of the three functions
-- has the results of its own calls of `recv`, and `can_send` is the result of answering "Expect".
pub mod Handled
pub mod Whole
use xwp_server.Base.{Bool, true, not, List, leb}
use xwp_server.Process.Body.{Done, http_process_content_body}
use xwp_server.Process.HeaderFields.{http_process_header_line}
use xwp_server.Process.{Recv, Reply, returned, http_process_request_line, request_phase}
use xwp_server.Request.{Body, Request}

module _ (can_send : Bool) (body : Body) where
  -- The body, behind the header lines. What it returns is not looked at, and is kept here.
  unfoldable pub receive_body : List Recv → Reply → Request → Done
  receive_body events (returned true) r = http_process_content_body r.in_content_len r body events
  receive_body events reply r = (reply, r, body)

  unfoldable pub receive_headers : List Recv → List Recv → Reply → Request → Done
  unfolding receive_body
  receive_headers header_events body_events (returned true) r =
      let (reply, r') = http_process_header_line request_phase can_send r header_events in
      receive_body body_events reply r'
  receive_headers header_events body_events reply r = (reply, r, body)

  unfoldable pub connection_gen_request : Request → List Recv → List Recv → List Recv → Done
  unfolding receive_headers
  connection_gen_request r line_events header_events body_events =
      let (reply, r') = http_process_request_line r line_events in
      receive_headers header_events body_events reply r'

-- `status >= HTTP_STATUS_SPECIAL_RESPONSE`: otherwise the request is handled.
unfoldable pub is_handled : Request → Bool
is_handled r = not (leb 300 r.status)
