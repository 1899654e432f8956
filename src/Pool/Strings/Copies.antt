-- ===== src/Pool/Strings/Copies.antt =====
-- The copies of strings.
use xwp_server.Base.{
  ℕ, zero, suc, ◌+◌, ◌≤◌, ◌<◌, ◌≡◌, ◌≢◌, refl, sym, ap, ◌∙◌, false, [], ◌∷◌, length, some, ◌==◌,
  arith,
}
use xwp_server.CLib.{Bytes}
use xwp_server.Memory.Walk.{write_self, write_ne}
use xwp_server.Memory.{Mem, write, write_all, slice}
use xwp_server.Pool.Strings.{copy_string, pool_strndup}
use xwp_server.Pool.{Pool, pool_alloc}

write_all_before : (m : Mem) (a : ℕ) (cs : Bytes) (b : ℕ) → b < a → write_all m a cs b ≡ m b
unfolding write_all
write_all_before m a [] b h = refl
write_all_before m a (c ∷ cs) b h =
    write_all_before (write m a c) (a + 1) cs b (omega arith)
    ∙ write_ne m a c b (λ e. omega (arith, ap (λ n. n + 0) e))

slice-write_all : (m : Mem) (a : ℕ) (cs : Bytes) → slice (write_all m a cs) a (length cs) ≡ cs
unfolding slice write_all
slice-write_all m a [] = refl
slice-write_all m a (c ∷ cs) =
    let first : write_all (write m a c) (a + 1) cs a ≡ c =
      write_all_before (write m a c) (a + 1) cs a (omega arith) ∙ write_self m a c in
    rw (first, slice-write_all (write m a c) (a + 1) cs) refl

slice-write : (m : Mem) (a v p n : ℕ) → p + n ≤ a → slice (write m a v) p n ≡ slice m p n
unfolding slice
slice-write m a v p zero h = refl
slice-write m a v p (suc n) h =
    let here : write m a v p ≡ m p = write_ne m a v p (λ e. omega (arith, ap (λ n. n + 0) e)) in
    rw (here, slice-write m a v (p + 1) n (omega arith)) refl

length-slice : (m : Mem) (p n : ℕ) → length (slice m p n) ≡ n
unfolding slice
length-slice m p zero = refl
length-slice m p (suc n) = ap suc (length-slice m (p + 1) n)

-- If `malloc` succeeds, the copy has the `len` bytes and a NUL behind them, and nothing below the block
-- is changed.
pub pool_strndup_copies :
    (m : Mem) (pool : Pool) (str len a : ℕ)
    → str ≢ 0
    → 0 < len
    → (copied : Mem) × (pool_strndup m pool str len (some a)
        ≡ (copied, record pool { nodes = a ∷ pool.nodes }, a + 8))
      × (slice copied (a + 8) len ≡ slice m str len)
      × (copied (a + 8 + len) ≡ 0)
      × ((b : ℕ) → b < a + 8 → copied b ≡ m b)
unfolding pool_strndup pool_alloc copy_string
pool_strndup_copies m pool str len a s l =
    let some_str : (str == 0) ≡ false = ground arith in
    let some_len : (len == 0) ≡ false = ground arith in
    let some_size : (len + 1 == 0) ≡ false = ground arith in
    let some_block : (a + 8 == 0) ≡ false = ground arith in
    let bytes = slice m str len in
    let filled = write_all m (a + 8) bytes in
    let measured : length bytes ≡ len = length-slice m str len in
    (
      copy_string m (a + 8) str len,
      (rw (some_str, some_len, some_size, some_block) refl),
      (slice-write filled (a + 8 + len) 0 (a + 8) len (omega arith)
          ∙ ap (λ n. slice filled (a + 8) n) (sym measured)
          ∙ slice-write_all m (a + 8) bytes),
      write_self filled (a + 8 + len) 0,
      (λ b h.
          write_ne filled (a + 8 + len) 0 b (λ e. omega (arith, ap (λ n. n + 0) e))
          ∙ write_all_before m (a + 8) bytes b h),
    )
