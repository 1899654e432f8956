-- ===== src/Memory.antt =====
-- The bytes that a `char*` of the program points to, by address, and the loops that walk over them.
-- A buffer that the parsers read lies from `start` to `end`, and the byte at `end` is its NUL, so a
-- walk that stops at a NUL needs no more rounds than there are bytes before `end`.
pub mod Walk
pub mod Pieces
pub mod Stands
use xwp_server.Base.{ℕ, zero, suc, ◌+◌, ◌-◌, Bool, [], ◌∷◌, ◌==◌, if◌then◌else◌}
use xwp_server.CLib.{Bytes}

abbrev pub Mem : Type 0
Mem = ℕ → ℕ

-- `*a = v`
unfoldable pub write : Mem → ℕ → ℕ → Mem
write m a v b = if b == a then v else m b

-- `memcpy(a, bytes, ...)`
unfoldable pub write_all : Mem → ℕ → Bytes → Mem
unfolding write
write_all m a [] = m
write_all m a (c ∷ cs) = write_all (write m a c) (a + 1) cs

-- The first address from `p` on whose byte passes `stop`, or `p + n`.
unfoldable pub seek : (ℕ → Bool) → Mem → ℕ → ℕ → ℕ
seek stop m p zero = p
seek stop m p (suc n) = let rest = seek stop m (p + 1) n in if stop (m p) then p else rest

-- The `n` bytes from `p` on.
unfoldable pub slice : Mem → ℕ → ℕ → Bytes
slice m p zero = []
slice m p (suc n) = m p ∷ slice m (p + 1) n

-- The C string at `p`, with its NUL before `p + n` or at it.
unfoldable pub c_string : Mem → ℕ → ℕ → Bytes
unfolding seek slice
c_string m p n = slice m p (seek (λ c. c == 0) m p n - p)

-- A `str_t` that points into a buffer.
pub record Slice : Type 0 where
  pub at : ℕ
  pub len : ℕ
