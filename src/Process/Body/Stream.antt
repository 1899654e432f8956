-- ===== src/Process/Body/Stream.antt =====
-- A body whose end is the end of the stream.
use xwp_server.Base.{
  ℕ, ◌+◌, ◌-◌, ◌≤◌, ◌%◌, ◌^◌, ◌≡◌, refl, sym, ap, ◌∙◌, true, false, List, [], ◌∷◌, length,
  length-take, some, ◌==◌, ltb, pos, negsuc, arith, Bool-cases, inl, inr,
}
use xwp_server.CLib.{Bytes}
use xwp_server.Process.{
  Recv, interrupted, failed, received, returned, aborted, null_read, waiting, room_for, receive,
}
use xwp_server.Process.Body.{
  Done, moved, grown_len, stream_round, add_len, stream_recv, stream_wait, process_length,
}
use xwp_server.Request.Buffer.{buf_create}
use xwp_server.Request.{Buf, Body, Request}

-- The buffer is in order.
pub record Ordered (b : Buf) : Type 0 where
  pub started : b.pos ≤ b.last
  pub within : b.last ≤ b.end

-- If the function returns 1, the body is stored: the buffer it stands in, in order, and its length.
abbrev pub Streamed : Done → Type 0
Streamed (returned true, r, body) =
    (b : Buf) × (body.content ≡ some b) × (body.content_len ≡ pos (b.last - b.pos)) × Ordered b
Streamed (returned false, r, body) = Unit {0}
Streamed (aborted, r, body) = ⊥
Streamed (null_read, r, body) = ⊥
Streamed (waiting, r, body) = Unit {0}

fits : (b : Buf) (bytes : Bytes) → b.last ≤ b.end → length (room_for b bytes) ≤ b.end - b.last
unfolding room_for
fits b bytes h = omega (arith, length-take ((b.end + 2 ^ 64 - b.last) % 2 ^ 64) bytes)

grown_len-le : (default n : ℕ) → n ≤ grown_len default n
unfolding grown_len
grown_len-le default n = ground arith

-- The new buffer is in order, and holds as many bytes as the old one.
moved-Ordered :
    (r : Request) (b : Buf) (size : ℕ)
    → b.last - b.pos ≤ size
    → let (r', b') = moved r b size in (b'.last - b'.pos ≡ b.last - b.pos) × Ordered b'
unfolding moved buf_create
moved-Ordered r b size h = (omega arith, record { started = omega arith; within = omega arith })

module _ (body : Body) where
  stream_round-Streamed :
      (r : Request) (b : Buf) (go_on : Request → Buf → Done)
      → Ordered b
      → body.content_len ≡ pos (b.last - b.pos)
      → ((r : Request) (b : Buf)
          → Ordered b
          → body.content_len ≡ pos (b.last - b.pos)
          → Streamed (go_on r b))
      → Streamed (stream_round r b body go_on)
  unfolding stream_round
  stream_round-Streamed r b go_on w e h =
      let n = b.last - b.pos in
      let size = grown_len r.conf.content_body_buf_size n in
      let new = moved-Ordered r b size (grown_len-le r.conf.content_body_buf_size n) in
      elim (Bool-cases (b.last == b.end)) [
        | inl full ↦ elim (Bool-cases (ltb r.conf.max_content_len n)) [
          | inl large ↦ rw (full, large) tt
          | inr small ↦
              rw (full, small)
                (h (moved r b size).0 (moved r b size).1 new.1 (e ∙ ap pos (sym new.0)))
        ]
        | inr space ↦ rw space (h r b w e)
      ]

stream_recv-Streamed :
    (r : Request) (b : Buf) (body : Body) (go_on : Body → Request → Buf → Done) (bytes : Bytes)
    → Ordered b
    → body.content_len ≡ pos (b.last - b.pos)
    → length bytes ≤ b.end - b.last
    → ((body : Body) (r : Request) (b : Buf)
        → Ordered b
        → body.content_len ≡ pos (b.last - b.pos)
        → Streamed (go_on body r b))
    → Streamed (stream_recv r b body go_on bytes)
unfolding stream_recv receive
stream_recv-Streamed r b body go_on [] w e l h = (b, refl, e, w)
stream_recv-Streamed r b body go_on (c ∷ cs) w e l h =
    let longer : Body = record body { content_len = add_len body.content_len (length (c ∷ cs)) } in
    let full : Buf = record b { last = b.last + length (c ∷ cs) } in
    let ready : Ordered full = record {
      started = omega (arith, w.started);
      within = omega (arith, w.within);
    } in
    let size : b.last - b.pos + length (c ∷ cs) ≡ full.last - full.pos = omega (arith, w.started) in
    stream_round-Streamed longer _ full (go_on longer) ready
      (ap (λ n. add_len n (length (c ∷ cs))) e ∙ ap pos size) (h longer)

stream_wait-Streamed :
    (events : List Recv) (r : Request) (b : Buf) (body : Body)
    → Ordered b
    → body.content_len ≡ pos (b.last - b.pos)
    → Streamed (stream_wait events r b body)
unfolding stream_wait
stream_wait-Streamed [] r b body w e = tt
stream_wait-Streamed (interrupted ∷ events) r b body w e = stream_wait-Streamed events r b body w e
stream_wait-Streamed (failed ∷ events) r b body w e = tt
stream_wait-Streamed (received bytes ∷ events) r b body w e =
    stream_recv-Streamed r b body (λ body r b. stream_wait events r b body) (room_for b bytes) w e
      (fits b bytes w.within) (λ body r b v k. stream_wait-Streamed events r b body v k)

-- A body of no announced length, which ends with its connection: if the function returns 1, the
-- stored length is the number of bytes in the stored buffer, all within its bounds, however often the
-- buffer has grown. It needs a header buffer in order.
pub process_length-Streamed :
    (k : ℕ) (r : Request) (body : Body) (events : List Recv)
    → r.header_buf.pos ≤ r.header_buf.last
    → r.header_buf.last ≤ r.header_buf.end
    → Streamed (process_length (negsuc k) r body events)
unfolding process_length
process_length-Streamed k r body events p l =
    let h = r.header_buf in
    let body' : Body = record body { content_len = pos (h.last - h.pos) } in
    let ready : Ordered h = record { started = p; within = l } in
    stream_round-Streamed body' r h (λ r b. stream_wait events r b body') ready refl
      (λ r b w e. stream_wait-Streamed events r b body' w e)
