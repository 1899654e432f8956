-- ===== src/Request/Buffer.antt =====
-- `buf_create` of src/buf.c, and `http_alloc_client_header_buf` and
-- `http_alloc_large_client_header_buf` of src/http_request.c. Allocations are taken to succeed.
pub mod Growth
use xwp_server.Base.{ℕ, ◌+◌, ◌-◌, ◌&&◌, Option, none, some, ltb, leb, if◌then◌else◌}
use xwp_server.Memory.{Mem, write, write_all, slice}
use xwp_server.Request.{Buf, Request}

-- `memset(a, 0, n)` of fresh memory
unfoldable pub clear : Mem → ℕ → ℕ → Mem
clear m a n b = if leb a b && ltb b (a + n) then 0 else m b

-- The new buffer, which is empty and zeroed.
unfoldable pub buf_create : Request → ℕ → Request × Buf
unfolding clear
buf_create r size = (
  record r { mem = clear r.mem r.free size; free = r.free + size },
  record { start = r.free; end = r.free + size; pos = r.free; last = r.free },
)

-- One byte more than the configured size is allocated, and `end` is set before it.
unfoldable pub http_alloc_client_header_buf : Request → Request
unfolding buf_create
http_alloc_client_header_buf r =
    let (r', b) = buf_create r (r.conf.client_header_size + 1) in
    record r' { mem = write r'.mem (b.end - 1) 0; header_buf = record b { end = b.end - 1 } }

-- The new buffer is stored in the request, but the NUL, the new `end` and the copy all go to the old
-- one, and `last` is moved on by the length of what is already there. (The bytes to copy are read
-- before they are written.)
unfoldable pub grow : Request → Buf → Request × Buf
unfolding buf_create
grow r buf =
    let rest_len = buf.last - buf.pos in
    let (r', new) = buf_create r (r.conf.large_client_header_size + 1) in
    let closed = write r'.mem (buf.end - 1) 0 in
    let copied = write_all closed buf.start (slice closed buf.pos rest_len) in
    (
      record r' { mem = copied; header_buf = new },
      record buf { end = buf.end - 1; last = buf.last + rest_len },
    )

-- `buf` is the caller's pointer to the buffer that was `request->header_buf`. `none` is the result 0.
unfoldable pub http_alloc_large_client_header_buf : Request → Buf → Option (Request × Buf)
unfolding grow
http_alloc_large_client_header_buf r buf =
    if leb r.conf.large_client_header_size (buf.end - buf.start) then none else some (grow r buf)
