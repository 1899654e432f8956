-- ===== src/Uwsgi/Exchange.antt =====
-- `upstream_uwsgi_process` of src/module_uwsgi.c: the packet and the body are sent to the backend, and
-- its answer is received. The results of `send` and `recv` are arguments, for each function that calls
-- them its own; the socket stays open meanwhile.
pub mod Sent
pub mod Ends
use xwp_server.Base.{
  ℕ, zero, suc, ◌+◌, true, false, List, [], ◌∷◌, ◌++◌, length, Option, none, some, ◌==◌,
  if◌then◌else◌, pos, negsuc,
}
use xwp_server.CLib.{Bytes}
use xwp_server.Io.{Send, Outcome, wrote, blocked, nwrite}
use xwp_server.Memory.{slice}
use xwp_server.Process.Body.{Done, http_process_content_body}
use xwp_server.Process.HeaderFields.{http_process_header_line}
use xwp_server.Process.{
  Recv, Reply, returned, null_read, aborted, waiting, http_process_status_line, response_phase,
}
use xwp_server.Request.{Body, Request}
use xwp_server.Uwsgi.Packet.{Env, upstream_uwsgi_calc_packet_len, upstream_uwsgi_packet}

-- `if(ret == 0) request->status = HTTP_STATUS_BAD_GATEWAY`
unfoldable pub bad_gateway : Request → Request
bad_gateway r = record r { status = 502 }

-- The bytes that are sent from `body_in`: none unless `content_len > 0`, and no result where `content`
-- is NULL.
unfoldable pub body_in_bytes : Request → Body → Option Bytes
body_in_bytes r body = elim body.content_len [
  | pos zero ↦ some []
  | negsuc n ↦ some []
  | pos (suc n) ↦ elim body.content [ none ↦ none | some b ↦ some (slice r.mem b.pos (suc n)) ]
]

module _ (body_out : Body) where
  -- The body of the answer. What `http_process_content_body` returns is not looked at, so `ret` is 1.
  unfoldable pub content_answer : Done → Done
  content_answer (returned b, r, body) = (returned true, r, body)
  content_answer (reply, r, body) = (reply, r, body)

  -- Behind `http_process_header_line`.
  unfoldable pub header_answer : List Recv → Reply × Request → Done
  unfolding content_answer bad_gateway
  header_answer body_events (returned true, r) =
      content_answer (http_process_content_body r.out_content_len r body_out body_events)
  header_answer body_events (returned false, r) = (returned false, bad_gateway r, body_out)
  header_answer body_events (reply, r) = (reply, r, body_out)

  -- Behind `http_process_status_line`.
  unfoldable pub status_answer : List Recv → List Recv → Reply × Request → Done
  unfolding header_answer bad_gateway
  status_answer header_events body_events (returned true, r) =
      header_answer body_events (http_process_header_line response_phase true r header_events)
  status_answer header_events body_events (returned false, r) =
      (returned false, bad_gateway r, body_out)
  status_answer header_events body_events (reply, r) = (reply, r, body_out)

  -- What `nwrite` of the body leads to, with what follows as `answer`.
  unfoldable pub after_body : Request → Bytes → Done → Outcome × Bytes → Done × Bytes
  unfolding bad_gateway
  after_body r packet answer (wrote true, out) = (answer, packet ++ out)
  after_body r packet answer (wrote false, out) =
      ((returned false, bad_gateway r, body_out), packet ++ out)
  after_body r packet answer (blocked, out) = ((waiting, r, body_out), packet ++ out)

  -- `if(request->body_in.content_len > 0)`
  unfoldable pub send_body_in : Request → Bytes → Done → List Send → Option Bytes → Done × Bytes
  unfolding after_body
  send_body_in r packet answer sends none = ((null_read, r, body_out), packet)
  send_body_in r packet answer sends (some []) = (answer, packet)
  send_body_in r packet answer sends (some (c ∷ cs)) =
      after_body r packet answer (nwrite (c ∷ cs) sends)

  -- What `nwrite` of the packet leads to.
  unfoldable pub after_packet :
      Request → Option Bytes → Done → List Send → Outcome × Bytes → Done × Bytes
  unfolding send_body_in bad_gateway
  after_packet r body answer sends (wrote true, out) = send_body_in r out answer sends body
  after_packet r body answer sends (wrote false, out) =
      ((returned false, bad_gateway r, body_out), out)
  after_packet r body answer sends (blocked, out) = ((waiting, r, body_out), out)

  -- The result is `ret`, with the request, the body of the answer, and the bytes that were sent.
  unfoldable pub upstream_uwsgi_process :
      ℕ
      → ℕ
      → Env
      → Request
      → Body
      → List Send
      → List Send
      → List Recv
      → List Recv
      → List Recv
      → Done × Bytes
  unfolding after_packet status_answer body_in_bytes
  upstream_uwsgi_process modifier1 modifier2 e r body_in packet_sends body_sends status_events
        header_events body_events =
      let packet = upstream_uwsgi_packet modifier1 modifier2 e in
      let answer =
        status_answer header_events body_events (http_process_status_line r status_events) in
      let sent =
        after_packet r (body_in_bytes r body_in) answer body_sends (nwrite packet packet_sends) in
      if length packet == upstream_uwsgi_calc_packet_len e + 4
      then sent
      else ((aborted, r, body_out), [])
