-- ===== src/Process/Body/Refusals.antt =====
-- The status after a body that was not received.
use xwp_server.Base.{
  ℕ, ◌-◌, refl, ◌&&◌, List, [], ◌∷◌, length, ◌==◌, ltb, leb, ℤ, pos, negsuc, Bool-cases, inl, inr,
}
use xwp_server.CLib.{Bytes}
use xwp_server.Process.Body.{
  Done, is_head, stream_round, stream_recv, stream_wait, length_round, length_recv, length_wait,
  body_buf, process_length, http_process_content_body, add_len,
}
use xwp_server.Process.Replies.{Explained}
use xwp_server.Process.{Recv, interrupted, failed, received, receive, room_for}
use xwp_server.Request.{Buf, Body, Request, stat_content_body}

-- A result 0 comes with one of the statuses of a failure.
abbrev pub IsRefused : Done → Type 0
IsRefused (reply, r, body) = Explained (reply, r)

stream_round-IsRefused :
    (r : Request) (b : Buf) (body : Body) (go_on : Request → Buf → Done)
    → ((r : Request) (b : Buf) → IsRefused (go_on r b))
    → IsRefused (stream_round r b body go_on)
unfolding stream_round
stream_round-IsRefused r b body go_on h = elim (Bool-cases (b.last == b.end)) [
  | inl full ↦ elim (Bool-cases (ltb r.conf.max_content_len (b.last - b.pos))) [
    | inl large ↦ rw (full, large) (inl refl)
    | inr small ↦ rw (full, small) (h _ _)
  ]
  | inr space ↦ rw space (h r b)
]

stream_recv-IsRefused :
    (r : Request) (b : Buf) (body : Body) (go_on : Body → Request → Buf → Done) (bytes : Bytes)
    → ((body : Body) (r : Request) (b : Buf) → IsRefused (go_on body r b))
    → IsRefused (stream_recv r b body go_on bytes)
unfolding stream_recv receive
stream_recv-IsRefused r b body go_on [] h = tt
stream_recv-IsRefused r b body go_on (c ∷ cs) h =
    let (r', b') = receive r b (c ∷ cs) in
    let longer : Body = record body { content_len = add_len body.content_len (length (c ∷ cs)) } in
    stream_round-IsRefused r' b' longer (go_on longer) (h longer)

stream_wait-IsRefused :
    (events : List Recv) (r : Request) (b : Buf) (body : Body)
    → IsRefused (stream_wait events r b body)
unfolding stream_wait
stream_wait-IsRefused [] r b body = tt
stream_wait-IsRefused (interrupted ∷ events) r b body = stream_wait-IsRefused events r b body
stream_wait-IsRefused (failed ∷ events) r b body = inr (inl refl)
stream_wait-IsRefused (received bytes ∷ events) r b body =
    stream_recv-IsRefused r b body (λ body r b. stream_wait events r b body) (room_for b bytes)
      (λ body r b. stream_wait-IsRefused events r b body)

length_round-IsRefused :
    (n : ℕ) (r : Request) (b : Buf) (body : Body) (go_on : Done)
    → IsRefused go_on
    → IsRefused (length_round n r b body go_on)
unfolding length_round
length_round-IsRefused n r b body go_on h = elim (Bool-cases (leb n (b.last - b.pos))) [
  | inl enough ↦ rw enough tt
  | inr more ↦ rw more h
]

length_recv-IsRefused :
    (n : ℕ) (r : Request) (b : Buf) (body : Body) (go_on : Request → Buf → Done) (bytes : Bytes)
    → ((r : Request) (b : Buf) → IsRefused (go_on r b))
    → IsRefused (length_recv n r b body go_on bytes)
unfolding length_recv
length_recv-IsRefused n r b body go_on [] h = inr (inl refl)
length_recv-IsRefused n r b body go_on (c ∷ cs) h =
    let (r', b') = receive r b (c ∷ cs) in
    elim (Bool-cases (ltb (b'.last - b'.pos) n && b'.end == b'.last)) [
      | inl early ↦ rw early tt
      | inr fine ↦ rw fine (length_round-IsRefused n r' b' body (go_on r' b') (h r' b'))
    ]

length_wait-IsRefused :
    (n : ℕ) (events : List Recv) (r : Request) (b : Buf) (body : Body)
    → IsRefused (length_wait n events r b body)
unfolding length_wait
length_wait-IsRefused n [] r b body = tt
length_wait-IsRefused n (interrupted ∷ events) r b body = length_wait-IsRefused n events r b body
length_wait-IsRefused n (failed ∷ events) r b body = inr (inl refl)
length_wait-IsRefused n (received bytes ∷ events) r b body =
    length_recv-IsRefused n r b body (λ r b. length_wait n events r b body) (room_for b bytes)
      (λ r b. length_wait-IsRefused n events r b body)

process_length-IsRefused :
    (len : ℤ) (r : Request) (body : Body) (events : List Recv)
    → IsRefused (process_length len r body events)
unfolding process_length
process_length-IsRefused (negsuc k) r body events =
    let h = r.header_buf in
    let begun : Body = record body { content_len = pos (h.last - h.pos) } in
    stream_round-IsRefused r h begun (λ r b. stream_wait events r b begun)
      (λ r b. stream_wait-IsRefused events r b begun)
process_length-IsRefused (pos n) r body events = elim (Bool-cases (n == 0)) [
  | inl none_left ↦ rw none_left tt
  | inr some_bytes ↦ elim (Bool-cases (ltb r.conf.max_content_len n)) [
    | inl over ↦ rw (some_bytes, over) (inl refl)
    | inr under ↦
        rw (some_bytes, under)
          (length_round-IsRefused n (body_buf r n).0 (body_buf r n).1 body _
            (length_wait-IsRefused n events (body_buf r n).0 (body_buf r n).1 body))
  ]
]

pub content_body-IsRefused :
    (len : ℤ) (r : Request) (body : Body) (events : List Recv)
    → IsRefused (http_process_content_body len r body events)
unfolding http_process_content_body
content_body-IsRefused len r body events = elim (Bool-cases (is_head r.method)) [
  | inl head ↦ rw head tt
  | inr other ↦
      rw other (process_length-IsRefused len (record r { state = stat_content_body }) body events)
]
