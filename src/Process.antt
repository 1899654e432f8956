-- ===== src/Process.antt =====
-- The receiving loops of src/http_request.c: `http_process_request_line`,
-- `http_process_header_line`, `http_process_status_line` and `http_process_content_body`. What `recv`
-- returns is an argument, a list of results; a loop that has used it up is waiting.
pub mod HeaderFields
pub mod Body
pub mod Replies
pub mod Pieces
use xwp_server.Base.{
  ℕ, ◌+◌, Bool, true, false, List, [], ◌∷◌, length, take, none, some, ◌==◌, if◌then◌else◌, pos,
  pos_part,
}
use xwp_server.CLib.{Bytes}
use xwp_server.Memory.{write_all}
use xwp_server.Parse.HeaderLine.{size_t_sub, http_parse_header_line}
use xwp_server.Parse.RequestLine.{http_parse_request_line}
use xwp_server.Parse.StatusLine.{http_parse_status_line}
use xwp_server.Parse.Url.{Code, parse_done, parse_fail, parse_again}
use xwp_server.Request.Buffer.{http_alloc_client_header_buf, http_alloc_large_client_header_buf}
use xwp_server.Request.{Buf, Request, stat_request_line, stat_status_line}

-- One result of `recv`, with `errno` as the loops test it behind the call: a result not above 0 with
-- EINTR, -1 with another error, or the bytes. `received []` is the end of the stream where `errno` is
-- not EINTR. `recv` leaves `errno` alone there, so at the end of a stream after an interruption each
-- further result is `interrupted` if EINTR is left over, and the loop goes on for ever.
pub data Recv : Type 0 where
  interrupted failed : Recv
  received : Bytes → Recv

-- How a function ends: the result 0 or 1, a read through a NULL pointer, an `assert` that fails, or not
-- yet.
pub data Reply : Type 0 where
  returned : Bool → Reply
  null_read aborted waiting : Reply

abbrev pub http_status_close : ℕ
http_status_close = 444

-- The bytes that fit: `recv(fd, buf->last, buf->end - buf->last, 0)`.
unfoldable pub room_for : Buf → Bytes → Bytes
room_for b bytes = take (size_t_sub b.end b.last) bytes

-- `buf->last += count`
unfoldable pub receive : Request → Buf → Bytes → Request × Buf
receive r b bytes =
    (record r { mem = write_all r.mem b.last bytes }, record b { last = b.last + length bytes })

-- One of the three parsers of lines, with its caller's pointer to the buffer.
abbrev pub Parser : Type 0
Parser = Request → Buf → Code × Request × Buf

-- The request's pointer and the caller's pointer are to one buffer until it grows.
unfoldable pub store_buf : Bool → Request → Buf → Request
store_buf true r b = r
store_buf false r b = record r { header_buf = b }

-- Growing, with what follows. The caller's buffer has its `last` behind its `end` from then on, so
-- this happens once at most.
unfoldable pub grow_or_fail :
    Bool → Request → Buf → (Bool → Request → Buf → Reply × Request) → Reply × Request
unfolding store_buf
grow_or_fail grown r b go_on = elim (http_alloc_large_client_header_buf r b) [
  | none ↦ (returned false, record (store_buf grown r b) { status = 500 })
  | some (r', b') ↦ go_on true r' b'
]

-- What a code of the parser leads to.
unfoldable pub after_parse :
    Code → Bool → Request → Buf → (Bool → Request → Buf → Reply × Request) → Reply × Request
unfolding store_buf grow_or_fail
after_parse parse_done grown r b go_on = (returned true, store_buf grown r b)
after_parse parse_fail grown r b go_on =
    (returned false, record (store_buf grown r b) { status = 400 })
after_parse parse_again grown r b go_on =
    if b.last == b.end then grow_or_fail grown r b go_on else go_on grown r b

-- The body of `for(;;)` up to `recv`, with what follows as `go_on`. `grown` says whether the request's
-- buffer is another one than the caller's.
unfoldable pub line_round :
    Parser → Bool → Request → Buf → (Bool → Request → Buf → Reply × Request) → Reply × Request
unfolding after_parse
line_round parse grown r b go_on =
    let (code, r', b') = parse r b in after_parse code grown r' b' go_on

-- What the bytes that were received lead to: none is the end of the stream.
unfoldable pub after_recv :
    Parser
    → Bool
    → Request
    → Buf
    → (Bool → Request → Buf → Reply × Request)
    → Bytes
    → Reply × Request
unfolding line_round store_buf receive
after_recv parse grown r b go_on [] =
    (returned false, record (store_buf grown r b) { status = http_status_close })
after_recv parse grown r b go_on (c ∷ cs) =
    let (r', b') = receive r b (c ∷ cs) in line_round parse grown r' b' go_on

-- `recv`, which is called again where `errno` is EINTR, and the next round.
unfoldable pub line_wait : Parser → List Recv → Bool → Request → Buf → Reply × Request
unfolding after_recv store_buf room_for
line_wait parse [] grown r b = (waiting, store_buf grown r b)
line_wait parse (interrupted ∷ events) grown r b = line_wait parse events grown r b
line_wait parse (failed ∷ events) grown r b =
    (returned false, record (store_buf grown r b) { status = http_status_close })
line_wait parse (received bytes ∷ events) grown r b =
    after_recv parse grown r b (λ g r b. line_wait parse events g r b) (room_for b bytes)

unfoldable pub line_loop : Parser → List Recv → Request → Reply × Request
unfolding line_wait
line_loop parse events r =
    line_round parse false r r.header_buf (λ g r b. line_wait parse events g r b)

unfoldable pub http_process_request_line : Request → List Recv → Reply × Request
unfolding line_loop
http_process_request_line r events =
    line_loop http_parse_request_line events
      (record (http_alloc_client_header_buf r) { state = stat_request_line })

-- `http_parse_status_line`, with `&request->status`. (A negative status is refused, and 400 stored.)
unfoldable pub status_parser : Parser
status_parser r b =
    let (code, m, b', status) = http_parse_status_line r.mem b (pos r.status) in
    (code, record r { mem = m; status = pos_part status }, b')

unfoldable pub http_process_status_line : Request → List Recv → Reply × Request
unfolding line_loop status_parser
http_process_status_line r events =
    line_loop status_parser events
      (record (http_alloc_client_header_buf r) { state = stat_status_line })

-- `HTTP_PROCESS_PHASE_REQUEST` and `HTTP_PROCESS_PHASE_RESPONSE`
pub data Phase : Type 0 where
  request_phase response_phase : Phase

unfoldable pub header_parser : Phase → Parser
header_parser request_phase r b =
    let (code, m, b', headers) = http_parse_header_line r.mem b r.headers_in in
    (code, record r { mem = m; headers_in = headers }, b')
header_parser response_phase r b =
    let (code, m, b', headers) = http_parse_header_line r.mem b r.headers_out in
    (code, record r { mem = m; headers_out = headers }, b')
