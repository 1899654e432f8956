-- ===== src/Uwsgi/Exchange/Ends.antt =====
-- An exchange whose bytes the backend takes comes to its answer.
use xwp_server.Base.{
  ℕ, ◌+◌, ◌≤◌, ◌<◌, ◌^◌, ◌≡◌, refl, sym, ap, true, List, [], ◌∷◌, ◌++◌, length, some, ◌==◌,
  append_nil, arith,
}
use xwp_server.CLib.{Bytes}
use xwp_server.Io.Written.{takes, nwrite_ends}
use xwp_server.Io.{Send}
use xwp_server.Process.Body.{Done}
use xwp_server.Process.{Recv, http_process_status_line}
use xwp_server.Request.{Body, Request}
use xwp_server.Uwsgi.Exchange.Sent.{length-upstream_uwsgi_packet}
use xwp_server.Uwsgi.Exchange.{
  body_in_bytes, status_answer, after_body, send_body_in, after_packet, upstream_uwsgi_process,
}
use xwp_server.Uwsgi.Packet.Len.{calc_packet_len-length}
use xwp_server.Uwsgi.Packet.{
  Env, upstream_uwsgi_calc_packet_len, packet_vars, upstream_uwsgi_packet,
}

send_body_in_ends :
    (body_out : Body) (r : Request) (packet s : Bytes) (answer : Done) (sends : List Send)
    → length s ≤ takes sends
    → send_body_in body_out r packet answer sends (some s) ≡ (answer, packet ++ s)
unfolding send_body_in
send_body_in_ends body_out r packet [] answer sends h =
    ap (λ l. (answer, l)) (sym (append_nil packet))
send_body_in_ends body_out r packet (c ∷ cs) answer sends h =
    rw (nwrite_ends (c ∷ cs) sends h, after_body) refl

-- Where the variables have less than 64 KiB and the body of the request can be read: if the calls of
-- `send` in front of one that is refused take the packet and the body, then the backend gets exactly
-- these, and the exchange ends as the receiving of the status line, the headers and the body of the
-- answer does.
pub upstream_uwsgi_process_ends :
    (modifier1 modifier2 : ℕ) (e : Env) (r : Request) (body_in body_out : Body) (s : Bytes)
    (packet_sends body_sends : List Send) (status_events header_events body_events : List Recv)
    → body_in_bytes r body_in ≡ some s
    → length (packet_vars e) < 2 ^ 16
    → length (packet_vars e) + 4 ≤ takes packet_sends
    → length s ≤ takes body_sends
    → upstream_uwsgi_process body_out modifier1 modifier2 e r body_in packet_sends body_sends
        status_events header_events body_events
      ≡ (
        status_answer body_out header_events body_events (http_process_status_line r status_events),
        upstream_uwsgi_packet modifier1 modifier2 e ++ s,
      )
unfolding upstream_uwsgi_process
upstream_uwsgi_process_ends modifier1 modifier2 e r body_in body_out s packet_sends body_sends
      status_events header_events body_events b small t u =
    let packet = upstream_uwsgi_packet modifier1 modifier2 e in
    let answer =
      status_answer body_out header_events body_events (http_process_status_line r status_events) in
    let k = calc_packet_len-length e in
    let l = length-upstream_uwsgi_packet modifier1 modifier2 e in
    let fits : (length packet == upstream_uwsgi_calc_packet_len e + 4) ≡ true = ground arith in
    let enough : length packet ≤ takes packet_sends = omega arith in
    rw (fits, b)
      (rw (nwrite_ends packet packet_sends enough, after_packet)
        (send_body_in_ends body_out r packet s answer body_sends u))
