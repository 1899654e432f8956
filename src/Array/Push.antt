-- ===== src/Array/Push.antt =====
-- The array as a list: pushing appends, within the block, as long as it was made for two or more.
use mathlib.Core.List.{append_assoc}
use xwp_server.Base.{
  ℕ, zero, suc, ◌+◌, ◌-◌, ◌/◌, ◌≤◌, ◌<◌, ◌≡◌, refl, sym, ◌∙◌, ap, List, [], ◌∷◌, ◌++◌, map, length,
  set, replicate, length-append, length-replicate, length-map, Option, none, some, ◌==◌, arith,
  Bool-cases, inl, inr,
}
use xwp_server.Array.{Array, array_create, array_grow, array_store, array_push}

module _ {A : Type 0} where
  -- The array holds these elements, in order, and the rest of its block is empty.
  pub record Holds (xs : List A) (a : Array A) : Type 0 where
    pub counted : a.count ≡ length xs
    pub room : a.count ≤ a.nalloc
    pub cells : a.elts ≡ map some xs ++ replicate (a.nalloc - a.count) none

  replicate-add : (m n : ℕ) (x : Option A) → replicate (m + n) x ≡ replicate m x ++ replicate n x
  replicate-add zero n x = let e : zero + n ≡ n = omega arith in rw e
  replicate-add (suc m) n x =
      let e : suc m + n ≡ suc (m + n) = omega arith in rw e (ap (λ r. x ∷ r) (replicate-add m n x))

  -- Writing the first empty cell appends.
  set-append :
      (xs : List A) (x : A) (n : ℕ)
      → set (map some xs ++ replicate (suc n) none) (length xs) (some x)
        ≡ map some (xs ++ x ∷ []) ++ replicate n none
  set-append [] x n = refl
  set-append (y ∷ xs) x n = ap (λ r. some y ∷ r) (set-append xs x n)

  pub array_create-Holds : (n : ℕ) → Holds [] (array_create n)
  unfolding array_create
  array_create-Holds n = record {
    counted = refl;
    room = omega arith;
    cells = ap (λ k. replicate k none) whole;
  }
    where
      whole : n ≡ n - 0
      whole = omega arith

  array_grow-Holds :
      (xs : List A) (a : Array A) → Holds xs a → a.count ≡ a.nalloc → Holds xs (array_grow a)
  unfolding array_grow
  array_grow-Holds xs a h full = record {
    counted = h.counted;
    room = omega (arith, h.room);
    cells =
        ap (λ c. c ++ replicate (a.nalloc / 2) none) h.cells
        ∙ append_assoc (map some xs) (replicate (a.nalloc - a.count) none)
            (replicate (a.nalloc / 2) none)
        ∙ ap (λ c. map some xs ++ c) (sym (replicate-add (a.nalloc - a.count) (a.nalloc / 2) none))
        ∙ ap (λ k. map some xs ++ replicate k none) total;
  }
    where
      total : a.nalloc - a.count + a.nalloc / 2 ≡ a.nalloc + a.nalloc / 2 - a.count
      total = omega (arith, h.room)

  length-elts : (xs : List A) (a : Array A) → Holds xs a → length a.elts ≡ a.nalloc
  length-elts xs a h =
      ap length h.cells
      ∙ omega (
        arith,
        length-append (map some xs) (replicate (a.nalloc - a.count) none),
        length-map xs some,
        length-replicate {A = Option A} (a.nalloc - a.count) none,
        h.counted,
        h.room,
      )

  abbrev stored : Array A → A → Array A
  stored a x = record a { elts = set a.elts a.count (some x); count = a.count + 1 }

  array_store-Holds :
      (xs : List A) (a : Array A) (x : A)
      → Holds xs a
      → a.count < a.nalloc
      → (array_store a x ≡ some (stored a x)) × Holds (xs ++ x ∷ []) (stored a x)
  unfolding array_store
  array_store-Holds xs a x h free = (
    ground (arith, length-elts xs a h),
    record {
      counted = omega (arith, h.counted, length-append xs (x ∷ []));
      room = free';
      cells =
          ap (λ c. set c a.count (some x)) h.cells
          ∙ ap (λ k. set (map some xs ++ replicate k none) a.count (some x)) one_more
          ∙ ap
              (λ k. set (map some xs ++ replicate (suc (a.nalloc - (a.count + 1))) none) k (some x))
              h.counted
          ∙ set-append xs x (a.nalloc - (a.count + 1));
    },
  )
    where
      free' : a.count + 1 ≤ a.nalloc
      free' = omega (arith, free)

      one_more : a.nalloc - a.count ≡ suc (a.nalloc - (a.count + 1))
      one_more = omega (arith, free)

  -- `array_push` appends, stays within its block, and never makes the block smaller, if the block has
  -- room for two at least.
  pub array_push-Holds :
      (xs : List A) (a : Array A) (x : A)
      → Holds xs a
      → 2 ≤ a.nalloc
      → (a' : Array A) × (array_push a x ≡ some a')
        × Holds (xs ++ x ∷ []) a'
        × (a.nalloc ≤ a'.nalloc)
  unfolding array_push
  array_push-Holds xs a x h two = elim (Bool-cases (a.count == a.nalloc)) [
    | inl full ↦
        let equal : a.count ≡ a.nalloc = ground arith in
        let (e, k) =
          array_store-Holds xs (array_grow a) x (array_grow-Holds xs a h equal)
            (unfold array_grow in omega arith) in
        (stored (array_grow a) x, rw full e, k, unfold array_grow in omega arith)
    | inr other ↦
        let (e, k) = array_store-Holds xs a x h (ground (arith, h.room)) in
        (stored a x, rw other e, k, omega arith)
  ]

  -- An array made for one element has no room for a second one: growing it adds nothing, and the
  -- store is behind the block.
  pub array_push_full_one :
      (x y : A) → (a : Array A) → Holds (x ∷ []) a → a.nalloc ≡ 1 → array_push a y ≡ none
  unfolding array_push
  array_push_full_one x y a h one =
      let full : a.count ≡ a.nalloc = omega (arith, h.counted) in
      ground
        (arith, h.counted, length-elts (x ∷ []) (array_grow a) (array_grow-Holds (x ∷ []) a h full))
