-- ===== src/Request/Buffer/Growth.antt =====
-- What allocating and growing the header buffer gives.
use xwp_server.Base.{◌+◌, ◌-◌, ◌<◌, ◌≡◌, refl, some, arith}
use xwp_server.Memory.Walk.{write_self}
use xwp_server.Request.{Buf, Request}
use xwp_server.Request.Buffer.{
  grow, http_alloc_client_header_buf, http_alloc_large_client_header_buf,
}

-- The first header buffer is empty, holds `client_header_size` bytes, and has a NUL at its end.
pub http_alloc_client_header_buf_lem :
    (r : Request)
    → let r' = http_alloc_client_header_buf r in
      (r'.header_buf.end ≡ r'.header_buf.start + r.conf.client_header_size)
      × (r'.header_buf.pos ≡ r'.header_buf.start)
      × (r'.header_buf.last ≡ r'.header_buf.start)
      × (r'.mem r'.header_buf.end ≡ 0)
unfolding http_alloc_client_header_buf
http_alloc_client_header_buf_lem r = (omega arith, refl, refl, write_self _ _ 0)

-- Whenever the header buffer is full, holds unparsed bytes and may grow, growing it leaves the
-- caller's buffer with its `last` beyond its `end`, and the request with an empty buffer.
pub http_alloc_large_overruns :
    (r : Request) (b : Buf)
    → b.pos < b.last
    → b.last ≡ b.end
    → b.end - b.start < r.conf.large_client_header_size
    → let (r', b') = grow r b in
      (http_alloc_large_client_header_buf r b ≡ some (r', b'))
      × (b'.end < b'.last)
      × (r'.header_buf.pos ≡ r'.header_buf.last)
unfolding http_alloc_large_client_header_buf
http_alloc_large_overruns r b p e l = (ground arith, omega arith, refl)
