-- ===== src/Tests/Process.antt =====
-- The receiving loops, on concrete results of `recv`.
use xwp_server.Base.{◌≡◌, List, refl, ℕ, Bool, true, false, pos, negsuc, [], ◌∷◌, none, arith}
use xwp_server.CLib.{Bytes, codes}
use xwp_server.Connection.Loop.Answered.{AllAnswered, connection_run-AllAnswered}
use xwp_server.Connection.Loop.{Incoming, connection_run}
use xwp_server.Connection.Route.{Vhost}
use xwp_server.Connection.Send.{BodyOut, memory_body}
use xwp_server.Connection.Receive.Handled.{connection_gen_request_refused}
use xwp_server.Connection.Turn.{Calls}
use xwp_server.Io.{sent}
use xwp_server.Connection.Receive.{connection_gen_request, is_handled}
use xwp_server.Memory.{write, seek}
use xwp_server.Parse.RequestLine.{http_parse_request_line, skip_space}
use xwp_server.Parse.Token.{find_next_eol}
use xwp_server.Request.Buffer.{http_alloc_client_header_buf}
use xwp_server.Process.Body.Bounds.{Complete, process_length-Complete}
use xwp_server.Process.Body.Stream.{Streamed, process_length-Streamed}
use xwp_server.Process.Body.{process_length}
use xwp_server.Process.{returned, interrupted, received, http_process_request_line}
use xwp_server.Request.{Body, Request}
use xwp_server.Tests.Text.{holding, request_in}

abbrev no_body : Body
no_body = record { content_len = pos 0; content = none }

process_length-Complete_example : Complete 4 (
    process_length
      (pos 4)
      (request_in (holding []))
      no_body
      (received (codes "ab") ∷ interrupted ∷ received (codes "cd") ∷ []))
process_length-Complete_example =
    process_length-Complete 4 (request_in (holding [])) no_body
      (received (codes "ab") ∷ interrupted ∷ received (codes "cd") ∷ []) (λ e. omega arith)
      (omega arith) (omega arith) (omega arith) (omega arith)

process_length-Streamed_example : Streamed (
    process_length
      (negsuc 0)
      (request_in (holding []))
      no_body
      (received (codes "ab") ∷ received [] ∷ []))
process_length-Streamed_example =
    process_length-Streamed 0 (request_in (holding [])) no_body
      (received (codes "ab") ∷ received [] ∷ []) (omega arith) (omega arith)

-- The client closes the connection in front of its request line.
abbrev closed_early : Request
closed_early =
    (connection_gen_request true no_body (request_in (holding [])) (received [] ∷ []) [] []).1

closed_early_lem :
    (connection_gen_request true no_body (request_in (holding [])) (received [] ∷ []) [] []).0
    ≡ returned false
unfolding connection_gen_request http_process_request_line http_parse_request_line find_next_eol
    http_alloc_client_header_buf write seek skip_space
closed_early_lem = refl

-- Every path goes to one handler, which answers "ok".
abbrev all_paths : Vhost
all_paths = record { name = codes "a"; locs = record { pattern = codes "/"; handler = 0 } ∷ [] }

abbrev says_ok : ℕ → Request → Body → Request × BodyOut
says_ok handler r body = (record r { status = 200 }, memory_body (codes "ok"))

abbrev always : Bytes → Bytes → Bool
always pattern path = true

abbrev early : Calls
early = record {
  line_events = received [] ∷ [];
  header_events = [];
  body_events = [];
  text_sends = [];
  body_sends = [];
  file_sent = none;
  expect_sends = [];
}

connection_gen_request_refused_example : is_handled closed_early ≡ false
connection_gen_request_refused_example =
    connection_gen_request_refused no_body (request_in (holding [])) (received [] ∷ []) [] []
      closed_early_lem

abbrev roomy : Request
roomy = record (request_in (holding [])) {
  conf = record {
    client_header_size = 64;
    large_client_header_size = 96;
    content_body_buf_size = 16;
    max_content_len = 64;
  };
}

-- A request with "Expect", the answer to which is taken in two calls, and the response at once.
abbrev short : Calls
short = record {
  line_events =
      received (codes "GET / HTTP/1.1") ∷ received (codes "\r\nExpect: 100-continue\r\n\r\n") ∷ [];
  header_events = [];
  body_events = [];
  text_sends = sent 500 ∷ [];
  body_sends = sent 9 ∷ [];
  file_sent = none;
  expect_sends = sent 20 ∷ sent 20 ∷ [];
}

abbrev two_requests : List Incoming
two_requests =
    record { mem = holding []; free = 1000; calls = short; finalized = true }
    ∷ record { mem = holding []; free = 1000; calls = early; finalized = true }
    ∷ []

connection_run-AllAnswered_example :
    AllAnswered roomy.conf two_requests
      (connection_run roomy.conf always all_paths [] says_ok two_requests).1
connection_run-AllAnswered_example =
    connection_run-AllAnswered roomy.conf always all_paths [] says_ok two_requests
