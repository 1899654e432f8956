-- ===== src/Uwsgi/Exchange/Sent.antt =====
-- What the backend gets, and what status a failed exchange leaves.
use xwp_server.Base.{
  ℕ, ◌+◌, ◌≤◌, ◌≡◌, refl, sym, ap, ◌∙◌, subst, true, false, List, [], ◌∷◌, ◌++◌, length, take, some,
  ◌==◌, take-append, append-take, take_all, arith, Bool-cases, inl, inr, ◌⊎◌, ◌^◌, append_nil,
}
use xwp_server.CLib.{Bytes}
use xwp_server.Io.Written.{Prefix, nwrite-Prefix}
use xwp_server.Io.{Send, Outcome, wrote, blocked, nwrite}
use xwp_server.Process.Body.{Done}
use xwp_server.Process.{
  Recv, Reply, returned, null_read, aborted, waiting, http_process_status_line,
}
use xwp_server.Request.{Body, Request}
use xwp_server.Uwsgi.Exchange.{
  body_in_bytes, content_answer, header_answer, status_answer, after_body, send_body_in,
  after_packet, upstream_uwsgi_process,
}
use xwp_server.Uwsgi.Packet.Len.{calc_packet_len-length}
use xwp_server.Uwsgi.Packet.{
  Env, upstream_uwsgi_calc_packet_len, packet_vars, upstream_uwsgi_packet, uint16_little_endian,
}

-- The result 0 comes with the status 502.
abbrev Is502 : Done → Type 0
Is502 (returned false, r, body) = r.status ≡ 502
Is502 _ = Unit {0}

content_answer-Is502 : (body_out : Body) (d : Done) → Is502 (content_answer body_out d)
unfolding content_answer
content_answer-Is502 body_out (returned b, r, body) = tt
content_answer-Is502 body_out (null_read, r, body) = tt
content_answer-Is502 body_out (aborted, r, body) = tt
content_answer-Is502 body_out (waiting, r, body) = tt

header_answer-Is502 :
    (body_out : Body) (events : List Recv) (a : Reply × Request)
    → Is502 (header_answer body_out events a)
unfolding header_answer
header_answer-Is502 body_out events (returned true, r) = content_answer-Is502 body_out _
header_answer-Is502 body_out events (returned false, r) = refl
header_answer-Is502 body_out events (null_read, r) = tt
header_answer-Is502 body_out events (aborted, r) = tt
header_answer-Is502 body_out events (waiting, r) = tt

status_answer-Is502 :
    (body_out : Body) (header_events body_events : List Recv) (a : Reply × Request)
    → Is502 (status_answer body_out header_events body_events a)
unfolding status_answer
status_answer-Is502 body_out header_events body_events (returned true, r) =
    header_answer-Is502 body_out body_events _
status_answer-Is502 body_out header_events body_events (returned false, r) = refl
status_answer-Is502 body_out header_events body_events (null_read, r) = tt
status_answer-Is502 body_out header_events body_events (aborted, r) = tt
status_answer-Is502 body_out header_events body_events (waiting, r) = tt

-- The backend got a beginning of the packet and the body.
abbrev pub Begun : Bytes → Bytes → Bytes → Type 0
Begun packet s wire = (n : ℕ) × (wire ≡ take n (packet ++ s))

-- With the variables of the packet, the packet and the body.
abbrev pub Exchanged : Bytes → Bytes → Bytes → Done × Bytes → Type 0
Exchanged vars packet s ((returned true, r, body), wire) = wire ≡ packet ++ s
Exchanged vars packet s ((returned false, r, body), wire) = (r.status ≡ 502) × Begun packet s wire
Exchanged vars packet s ((waiting, r, body), wire) = Begun packet s wire
Exchanged vars packet s ((null_read, r, body), wire) = wire ≡ packet ++ s
Exchanged vars packet s ((aborted, r, body), wire) = (wire ≡ packet ++ s) ⊎ (2 ^ 16 ≤ length vars)

module _ (body_out : Body) (vars packet : Bytes) where
  whole : (s wire : Bytes) → wire ≡ packet ++ s → Begun packet s wire
  whole s wire e =
      (length (packet ++ s), e ∙ sym (take_all (packet ++ s) (length (packet ++ s)) (omega arith)))

  answer-Exchanged :
      (s : Bytes) (d : Done) (wire : Bytes)
      → Is502 d
      → wire ≡ packet ++ s
      → Exchanged vars packet s (d, wire)
  answer-Exchanged s (returned true, r, body) wire h e = e
  answer-Exchanged s (returned false, r, body) wire h e = (h, whole s wire e)
  answer-Exchanged s (null_read, r, body) wire h e = e
  answer-Exchanged s (aborted, r, body) wire h e = inl e
  answer-Exchanged s (waiting, r, body) wire h e = whole s wire e

  after_body-Exchanged :
      (r : Request) (s : Bytes) (answer : Done) (o : Outcome × Bytes)
      → Is502 answer
      → Prefix s o
      → Exchanged vars packet s (after_body body_out r packet answer o)
  unfolding after_body
  after_body-Exchanged r s answer (wrote true, out) h p =
      answer-Exchanged s answer (packet ++ out) h (ap (λ l. packet ++ l) p)
  after_body-Exchanged r s answer (wrote false, out) h p =
      (refl, (length packet + p.0, ap (λ l. packet ++ l) p.2 ∙ append-take packet s p.0))
  after_body-Exchanged r s answer (blocked, out) h p =
      (length packet + p.0, ap (λ l. packet ++ l) p.2 ∙ append-take packet s p.0)

  send_body_in-Exchanged :
      (r : Request) (s : Bytes) (answer : Done) (sends : List Send)
      → Is502 answer
      → Exchanged vars packet s (send_body_in body_out r packet answer sends (some s))
  unfolding send_body_in
  send_body_in-Exchanged r [] answer sends h =
      answer-Exchanged [] answer packet h (sym (append_nil packet))
  send_body_in-Exchanged r (c ∷ cs) answer sends h =
      after_body-Exchanged r (c ∷ cs) answer (nwrite (c ∷ cs) sends) h
        (nwrite-Prefix (c ∷ cs) sends)

  after_packet-Exchanged :
      (r : Request) (s : Bytes) (answer : Done) (sends : List Send) (o : Outcome × Bytes)
      → Is502 answer
      → Prefix packet o
      → Exchanged vars packet s (after_packet body_out r (some s) answer sends o)
  unfolding after_packet
  after_packet-Exchanged r s answer sends (wrote true, out) h p =
      subst (λ t. Exchanged vars packet s (send_body_in body_out r t answer sends (some s))) (sym p)
        (send_body_in-Exchanged r s answer sends h)
  after_packet-Exchanged r s answer sends (wrote false, out) h p =
      (refl, (p.0, p.2 ∙ sym (take-append packet s p.0 (omega (arith, p.1)))))
  after_packet-Exchanged r s answer sends (blocked, out) h p =
      (p.0, p.2 ∙ sym (take-append packet s p.0 (omega (arith, p.1))))

pub length-upstream_uwsgi_packet :
    (modifier1 modifier2 : ℕ) (e : Env)
    → length (upstream_uwsgi_packet modifier1 modifier2 e) ≡ length (packet_vars e) + 4
unfolding upstream_uwsgi_packet uint16_little_endian
length-upstream_uwsgi_packet modifier1 modifier2 e = omega arith

-- Where the body of the request can be read: if the exchange comes to the body of the answer, the backend
-- has got exactly the packet and the body. If it ends before, it got a beginning of both, and the status
-- is 502. No `assert` fails before both are sent, unless the variables have 64 KiB or more.
pub upstream_uwsgi_process-Exchanged :
    (modifier1 modifier2 : ℕ) (e : Env) (r : Request) (body_in body_out : Body) (s : Bytes)
    (packet_sends body_sends : List Send) (status_events header_events body_events : List Recv)
    → body_in_bytes r body_in ≡ some s
    → Exchanged (packet_vars e) (upstream_uwsgi_packet modifier1 modifier2 e) s (
        upstream_uwsgi_process body_out modifier1 modifier2 e r body_in packet_sends body_sends
          status_events header_events body_events)
unfolding upstream_uwsgi_process
upstream_uwsgi_process-Exchanged modifier1 modifier2 e r body_in body_out s packet_sends body_sends
      status_events header_events body_events b =
    let packet = upstream_uwsgi_packet modifier1 modifier2 e in
    let answer =
      status_answer body_out header_events body_events (http_process_status_line r status_events) in
    elim (Bool-cases (length packet == upstream_uwsgi_calc_packet_len e + 4)) [
      | inl fits ↦
          rw (fits, b)
            (after_packet-Exchanged body_out (packet_vars e) packet r s answer body_sends
              (nwrite packet packet_sends)
              (status_answer-Is502 body_out header_events body_events
                (http_process_status_line r status_events))
              (nwrite-Prefix packet packet_sends))
      | inr wraps ↦
          let k = calc_packet_len-length e in
          let l = length-upstream_uwsgi_packet modifier1 modifier2 e in
          let long : 2 ^ 16 ≤ length (packet_vars e) = ground arith in rw wraps (inr long)
    ]
