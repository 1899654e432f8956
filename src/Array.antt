-- ===== src/Array.antt =====
-- src/array.c: a growing array of pointers. Allocations are taken to succeed.
pub mod Push
use xwp_server.Base.{
  ℕ, ◌+◌, ◌/◌, List, ◌++◌, length, set, replicate, Option, none, some, ltb, ◌==◌, if◌then◌else◌,
}

-- `array_t`: the cells that `elts` points to, `none` where nothing was stored, and the two counts.
pub record Array {ℓ} (A : Type ℓ) : Type ℓ where
  pub elts : List (Option A)
  pub count : ℕ
  pub nalloc : ℕ

module _ {ℓ} {A : Type ℓ} where
  unfoldable pub array_create : ℕ → Array A
  array_create nalloc = record { elts = replicate nalloc none; count = 0; nalloc = nalloc }

  -- The new block: half as many cells again, and the old ones copied.
  unfoldable pub array_grow : Array A → Array A
  array_grow a = record {
    elts = a.elts ++ replicate (a.nalloc / 2) none;
    count = a.count;
    nalloc = a.nalloc + a.nalloc / 2;
  }

  -- `elts[count] = data`; `none` where that cell is not in the block.
  unfoldable pub array_store : Array A → A → Option (Array A)
  array_store a x =
      if ltb a.count (length a.elts)
      then some (record a { elts = set a.elts a.count (some x); count = a.count + 1 })
      else none

  unfoldable pub array_push : Array A → A → Option (Array A)
  unfolding array_grow array_store
  array_push a x = array_store (if a.count == a.nalloc then array_grow a else a) x
