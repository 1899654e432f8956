-- ===== src/Pool/Strings.antt =====
-- `pool_strdup`, which `pool_strdup2` calls, and `pool_strndup` of src/pool.c, over the memory; 0 is
-- NULL.
pub mod Copies
use xwp_server.Base.{ℕ, ◌+◌, ◌-◌, Option, ◌==◌, if◌then◌else◌}
use xwp_server.Memory.{Mem, write, write_all, slice, seek}
use xwp_server.Pool.{Pool, pool_alloc}

-- `memcpy(p, str, len)` and the NUL behind it
unfoldable pub copy_string : Mem → ℕ → ℕ → ℕ → Mem
copy_string m q str len = write (write_all m q (slice m str len)) (q + len) 0

-- What `pool_alloc` leads to.
unfoldable pub copy_into : Mem → ℕ → ℕ → Pool × ℕ → Mem × Pool × ℕ
unfolding copy_string
copy_into m str len (pool, q) = if q == 0 then (m, pool, 0) else (copy_string m q str len, pool, q)

-- `str` has its NUL within `bound` bytes; `block` is what `malloc` returns.
unfoldable pub pool_strdup : Mem → Pool → ℕ → ℕ → Option ℕ → Mem × Pool × ℕ
unfolding copy_into
pool_strdup m pool str bound block =
    let len = seek (λ c. c == 0) m str bound - str in
    let copied = copy_into m str len (pool_alloc pool (len + 1) block) in
    if str == 0 then (m, pool, 0) else copied

unfoldable pub pool_strndup : Mem → Pool → ℕ → ℕ → Option ℕ → Mem × Pool × ℕ
unfolding copy_into
pool_strndup m pool str len block =
    let copied = copy_into m str len (pool_alloc pool (len + 1) block) in
    if str == 0 then (m, pool, 0) else if len == 0 then (m, pool, 0) else copied
