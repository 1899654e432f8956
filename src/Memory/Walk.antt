-- ===== src/Memory/Walk.antt =====
-- Where a walk ends, and what a write leaves alone.
use xwp_server.Base.{
  ℕ, zero, suc, ◌+◌, ◌≤◌, ◌<◌, ◌≡◌, ◌≢◌, refl, Bool, true, false, arith, Bool-cases, inl, inr, ◌⊎◌,
  ◌∙◌, sym, ap, true≢false, length,
}
use xwp_server.Memory.{Mem, write, seek, slice}

pub write_self : (m : Mem) (a v : ℕ) → write m a v a ≡ v
unfolding write
write_self m a v = ground arith

pub write_ne : (m : Mem) (a v b : ℕ) → b ≢ a → write m a v b ≡ m b
unfolding write
write_ne m a v b h = ground arith

module _ (stop : ℕ → Bool) (m : Mem) where
  pub seek_bounds : (p n : ℕ) → (p ≤ seek stop m p n) × (seek stop m p n ≤ p + n)
  unfolding seek
  seek_bounds p zero = omega arith
  seek_bounds p (suc n) = ground (arith, seek_bounds (p + 1) n)

  -- No byte before the end of the walk passes the test.
  pub seek_before : (p n i : ℕ) → p ≤ i → i < seek stop m p n → stop (m i) ≡ false
  unfolding seek
  seek_before p zero i h l = absurd (omega arith)
  seek_before p (suc n) i h l = elim (Bool-cases (stop (m p))) [
    | inl e ↦ absurd (ground arith)
    | inr e ↦ elim (cases p i h) [
      | inl same ↦ ground arith
      | inr later ↦ seek_before (p + 1) n i (omega arith) (ground arith)
    ]
  ]
    where
      cases : (p i : ℕ) → p ≤ i → (i ≡ p) ⊎ (p < i)
      cases p i h = omega arith

  -- The walk ends at a byte that passes, if the one behind its last round does.
  pub seek_stops : (p n : ℕ) → stop (m (p + n)) ≡ true → stop (m (seek stop m p n)) ≡ true
  unfolding seek
  seek_stops p zero h = let e : p + zero ≡ p = omega arith in rw e at h
  seek_stops p (suc n) h = elim (Bool-cases (stop (m p))) [
    | inl e ↦ rw e e
    | inr e ↦
        let here : p + suc n ≡ p + 1 + n = omega arith in rw e (seek_stops (p + 1) n (rw here at h))
  ]

  -- So it ends at `q` if that byte is the first to pass.
  pub seek_at :
      (p n q : ℕ)
      → p ≤ q
      → q ≤ p + n
      → ((i : ℕ) → p ≤ i → i < q → stop (m i) ≡ false)
      → stop (m q) ≡ true
      → seek stop m p n ≡ q
  unfolding seek
  seek_at p zero q lo hi h e = omega arith
  seek_at p (suc n) q lo hi h e = elim (Bool-cases (stop (m p))) [
    | inl hit ↦ elim (cases p q lo) [
      | inl same ↦ rw hit (sym same)
      | inr later ↦ absurd (true≢false (sym hit ∙ h p (omega arith) later))
    ]
    | inr miss ↦ elim (cases p q lo) [
      | inl same ↦ absurd (true≢false (sym e ∙ ap (λ i. stop (m i)) same ∙ miss))
      | inr later ↦
          rw miss (seek_at (p + 1) n q (omega arith) (omega arith) (λ i l. h i (omega arith)) e)
    ]
  ]
    where
      cases : (p q : ℕ) → p ≤ q → (q ≡ p) ⊎ (p < q)
      cases p q h = omega arith

pub length-slice : (m : Mem) (p n : ℕ) → length (slice m p n) ≡ n
unfolding slice
length-slice m p zero = refl
length-slice m p (suc n) = omega (arith, length-slice m (p + 1) n)

-- Equal bytes make equal slices.
pub slice-cong :
    (m m' : Mem) (p n : ℕ) → ((i : ℕ) → p ≤ i → i < p + n → m i ≡ m' i) → slice m p n ≡ slice m' p n
unfolding slice
slice-cong m m' p zero h = refl
slice-cong m m' p (suc n) h =
    let here : m p ≡ m' p = h p (omega arith) (omega arith) in
    let rest : slice m (p + 1) n ≡ slice m' (p + 1) n =
      slice-cong m m' (p + 1) n (λ i l g. h i (omega arith) (omega arith)) in
    cc
