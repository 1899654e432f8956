-- ===== src/Process/Body/Bounds.antt =====
-- A body of a known length is received whole, within its buffer.
use xwp_server.Base.{
  ℕ, ◌+◌, ◌-◌, ◌≤◌, ◌<◌, ◌%◌, ◌^◌, ◌≡◌, ◌≢◌, refl, true, false, ◌&&◌, List, [], ◌∷◌, length,
  length-take, some, ◌==◌, ltb, leb, pos, arith, Bool-cases, inl, inr, tests,
}
use xwp_server.CLib.{Bytes}
use xwp_server.Process.{
  Recv, interrupted, failed, received, returned, aborted, null_read, waiting, room_for, receive,
}
use xwp_server.Process.Body.{Done, length_round, length_recv, length_wait, body_buf, process_length}
use xwp_server.Request.{Buf, Body, Request}

-- A buffer whose unread bytes and whose room for `n` bytes lie within it.
pub record Roomy (n : ℕ) (b : Buf) : Type 0 where
  pub started : b.pos ≤ b.last
  pub within : b.last ≤ b.end
  pub room : n ≤ b.end - b.pos
  pub small : b.end < 2 ^ 64

-- If the function returns 1, the body is stored: its length, and a buffer that holds as many bytes
-- within its bounds. And the `assert` has not failed.
abbrev pub Complete : ℕ → Done → Type 0
Complete n (returned true, r, body) =
    (body.content_len ≡ pos n)
    × ((b : Buf) × (body.content ≡ some b) × (n ≤ b.last - b.pos) × (b.last ≤ b.end))
Complete n (returned false, r, body) = Unit {0}
Complete n (aborted, r, body) = ⊥
Complete n (null_read, r, body) = ⊥
Complete n (waiting, r, body) = Unit {0}

length-room_for :
    (b : Buf) (bytes : Bytes)
    → b.last ≤ b.end
    → b.end < 2 ^ 64
    → length (room_for b bytes) ≤ b.end - b.last
unfolding room_for
length-room_for b bytes h k = omega (arith, length-take ((b.end + 2 ^ 64 - b.last) % 2 ^ 64) bytes)

module _ (n : ℕ) (body : Body) where
  length_round-Complete :
      (r : Request) (b : Buf) (go_on : Done)
      → Roomy n b
      → Complete n go_on
      → Complete n (length_round n r b body go_on)
  unfolding length_round
  length_round-Complete r b go_on w h = elim (Bool-cases (leb n (b.last - b.pos))) [
    | inl enough ↦ rw enough (refl, (b, refl, ground arith, w.within))
    | inr more ↦ rw more h
  ]

  length_recv-Complete :
      (r : Request) (b : Buf) (go_on : Request → Buf → Done) (bytes : Bytes)
      → Roomy n b
      → length bytes ≤ b.end - b.last
      → ((r : Request) (b : Buf) → Roomy n b → Complete n (go_on r b))
      → Complete n (length_recv n r b body go_on bytes)
  unfolding length_recv receive
  length_recv-Complete r b go_on [] w l h = tt
  length_recv-Complete r b go_on (c ∷ cs) w l h =
      let full : Buf = record b { last = b.last + length (c ∷ cs) } in
      let ready : Roomy n full = record {
        started = omega (arith, w.started);
        within = omega (arith, w.within, l);
        room = w.room;
        small = w.small;
      } in
      let holds : (ltb (full.last - full.pos) n && full.end == full.last) ≡ false =
        ground (arith, ready.room, ready.started) in
      rw holds (length_round-Complete _ full (go_on _ full) ready (h _ full ready))

length_wait-Complete :
    (n : ℕ) (events : List Recv) (r : Request) (b : Buf) (body : Body)
    → Roomy n b
    → Complete n (length_wait n events r b body)
unfolding length_wait
length_wait-Complete n [] r b body w = tt
length_wait-Complete n (interrupted ∷ events) r b body w = length_wait-Complete n events r b body w
length_wait-Complete n (failed ∷ events) r b body w = tt
length_wait-Complete n (received bytes ∷ events) r b body w =
    length_recv-Complete n body r b (λ r b. length_wait n events r b body) (room_for b bytes) w
      (length-room_for b bytes w.within w.small) (λ r b v. length_wait-Complete n events r b body v)

body_buf-Roomy :
    (r : Request) (n : ℕ)
    → r.header_buf.pos ≤ r.header_buf.last
    → r.header_buf.last ≤ r.header_buf.end
    → r.header_buf.end < 2 ^ 64
    → r.free + n < 2 ^ 64
    → Roomy n (body_buf r n).1
unfolding body_buf
body_buf-Roomy r n p l e f = elim (Bool-cases (ltb (r.header_buf.end - r.header_buf.pos) n)) [
  | inl large ↦ rw large (record {
    started = omega arith;
    within = omega (tests, large);
    room = omega arith;
    small = omega arith;
  })
  | inr fits ↦ rw fits (record { started = p; within = l; room = ground arith; small = e })
]

-- A body whose announced length `n` is not 0: if the function returns 1, the stored length is `n`, and
-- the stored buffer holds at least `n` bytes, all within its bounds; and the `assert` in the loop never
-- fails. It needs a header buffer in order, and addresses below 2 ^ 64.
pub process_length-Complete :
    (n : ℕ) (r : Request) (body : Body) (events : List Recv)
    → n ≢ 0
    → r.header_buf.pos ≤ r.header_buf.last
    → r.header_buf.last ≤ r.header_buf.end
    → r.header_buf.end < 2 ^ 64
    → r.free + n < 2 ^ 64
    → Complete n (process_length (pos n) r body events)
unfolding process_length
process_length-Complete n r body events nz p l e f =
    let ready = body_buf-Roomy r n p l e f in
    let some_bytes : (n == 0) ≡ false = ground arith in
    rw some_bytes (elim (Bool-cases (ltb r.conf.max_content_len n)) [
      | inl over ↦ rw over tt
      | inr under ↦ rw under (
          length_round-Complete n body (body_buf r n).0 (body_buf r n).1 _ ready
            (length_wait-Complete n events (body_buf r n).0 (body_buf r n).1 body ready))
    ])
