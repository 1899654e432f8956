-- ===== src/Process/Body.antt =====
-- `http_process_content_body` of src/http_request.c.
pub mod Bounds
pub mod Stream
pub mod Refusals
pub mod There
use xwp_server.Base.{
  ℕ, ◌+◌, ◌-◌, ◌/◌, Bool, ◌&&◌, true, false, List, [], ◌∷◌, length, some, ◌==◌, ltb, leb,
  if◌then◌else◌, ℤ, pos, negsuc,
}
use xwp_server.CLib.{Bytes}
use xwp_server.Memory.{write_all, slice}
use xwp_server.Process.{
  Recv, interrupted, failed, received, Reply, returned, aborted, waiting, http_status_close,
  room_for, receive,
}
use xwp_server.Request.Buffer.{buf_create}
use xwp_server.Request.{Buf, Method, head, Body, Request, stat_content_body}

abbrev pub Done : Type 0
Done = Reply × Request × Body

abbrev pub refuse : ℕ → Request → Body → Done
refuse status r body = (returned false, record r { status = status }, body)

-- A copy of the unread bytes of `b` in a new buffer of `size` bytes.
unfoldable pub moved : Request → Buf → ℕ → Request × Buf
unfolding buf_create
moved r b size =
    let n = b.last - b.pos in
    let (r', new) = buf_create r size in
    (
      record r' { mem = write_all r'.mem new.start (slice r'.mem b.pos n) },
      record new { last = new.last + n },
    )

-- `alloc_buf_len`
unfoldable pub grown_len : ℕ → ℕ → ℕ
grown_len default n = if ltb n default then default else n + n / 2

-- The body whose end is the end of the stream: one round up to `recv`, with what follows as `go_on`.
unfoldable pub stream_round : Request → Buf → Body → (Request → Buf → Done) → Done
unfolding moved grown_len
stream_round r b body go_on =
    let n = b.last - b.pos in
    let (r', b') = moved r b (grown_len r.conf.content_body_buf_size n) in
    if b.last == b.end
    then if ltb r.conf.max_content_len n then refuse 400 r body else go_on r' b'
    else go_on r b

abbrev pub add_len : ℤ → ℕ → ℤ
add_len (pos n) k = pos (n + k)
add_len (negsuc n) k = if ltb n k then pos (k - n - 1) else negsuc (n - k)

-- What the bytes that were received lead to: none is the end of the stream, and of the body.
unfoldable pub stream_recv : Request → Buf → Body → (Body → Request → Buf → Done) → Bytes → Done
unfolding stream_round receive
stream_recv r b body go_on [] = (returned true, r, record body { content = some b })
stream_recv r b body go_on (c ∷ cs) =
    let (r', b') = receive r b (c ∷ cs) in
    let body' = record body { content_len = add_len body.content_len (length (c ∷ cs)) } in
    stream_round r' b' body' (go_on body')

unfoldable pub stream_wait : List Recv → Request → Buf → Body → Done
unfolding stream_recv room_for
stream_wait [] r b body = (waiting, r, body)
stream_wait (interrupted ∷ events) r b body = stream_wait events r b body
stream_wait (failed ∷ events) r b body = refuse http_status_close r body
stream_wait (received bytes ∷ events) r b body =
    stream_recv r b body (λ body r b. stream_wait events r b body) (room_for b bytes)

-- The body of a known length: the test of the loop, with what follows as `go_on`.
unfoldable pub length_round : ℕ → Request → Buf → Body → Done → Done
length_round n r b body go_on =
    if leb n (b.last - b.pos)
    then (returned true, r, record body { content = some b; content_len = pos n })
    else go_on

-- The bytes that were received, the `assert` that the buffer is not full too early, and the test.
unfoldable pub length_recv : ℕ → Request → Buf → Body → (Request → Buf → Done) → Bytes → Done
unfolding length_round receive
length_recv n r b body go_on [] = refuse http_status_close r body
length_recv n r b body go_on (c ∷ cs) =
    let (r', b') = receive r b (c ∷ cs) in
    if ltb (b'.last - b'.pos) n && b'.end == b'.last
    then (aborted, r', body)
    else length_round n r' b' body (go_on r' b')

unfoldable pub length_wait : ℕ → List Recv → Request → Buf → Body → Done
unfolding length_recv room_for
length_wait n [] r b body = (waiting, r, body)
length_wait n (interrupted ∷ events) r b body = length_wait n events r b body
length_wait n (failed ∷ events) r b body = refuse http_status_close r body
length_wait n (received bytes ∷ events) r b body =
    length_recv n r b body (λ r b. length_wait n events r b body) (room_for b bytes)

-- The header buffer itself serves where the whole body fits behind what was parsed.
unfoldable pub body_buf : Request → ℕ → Request × Buf
unfolding moved
body_buf r n =
    let h = r.header_buf in
    if ltb (h.end - h.pos) n then moved r h n else (r, record h { start = h.pos })

abbrev pub is_head : Method → Bool
is_head head = true
is_head _ = false

unfoldable pub process_length : ℤ → Request → Body → List Recv → Done
unfolding stream_wait length_wait body_buf
process_length (negsuc k) r body events =
    let h = r.header_buf in
    let body' = record body { content_len = pos (h.last - h.pos) } in
    stream_round r h body' (λ r b. stream_wait events r b body')
process_length (pos n) r body events =
    let (r', b) = body_buf r n in
    let taken = length_round n r' b body (length_wait n events r' b body) in
    if n == 0
    then (returned true, r, body)
    else if ltb r.conf.max_content_len n
    then refuse 400 r body
    else taken

unfoldable pub http_process_content_body : ℤ → Request → Body → List Recv → Done
unfolding process_length
http_process_content_body len r body events =
    let r' = record r { state = stat_content_body } in
    if is_head r.method then (returned true, r', body) else process_length len r' body events
