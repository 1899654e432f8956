-- ===== src/Memory/Pieces.antt =====
-- Copying bytes piece by piece, and a walk that goes on where another one ended.
use xwp_server.Base.{
  ℕ, zero, suc, ◌+◌, ◌-◌, ◌≤◌, ◌<◌, ◌≡◌, ◌≢◌, refl, Bool, true, false, arith, Bool-cases, inl, inr,
  ◌⊎◌, ◌∙◌, sym, ap, length, [], ◌∷◌, ◌++◌,
}
use xwp_server.CLib.{Bytes}
use xwp_server.Memory.Walk.{write_self, write_ne}
use xwp_server.Memory.{Mem, write, write_all, seek}

pub write_all-append :
    (m : Mem) (a : ℕ) (c d : Bytes)
    → write_all m a (c ++ d) ≡ write_all (write_all m a c) (a + length c) d
unfolding write_all
write_all-append m a [] d = ap (λ i. write_all m i d) (omega arith)
write_all-append m a (x ∷ c) d =
    write_all-append (write m a x) (a + 1) c d
    ∙ ap (λ i. write_all (write_all (write m a x) (a + 1) c) i d) (omega arith)

-- Bytes in front of the copy and behind it stay.
pub write_all_ne :
    (m : Mem) (a : ℕ) (c : Bytes) (i : ℕ) → (i < a) ⊎ (a + length c ≤ i) → write_all m a c i ≡ m i
unfolding write_all
write_all_ne m a [] i h = refl
write_all_ne m a (x ∷ c) i h =
    write_all_ne (write m a x) (a + 1) c i (omega arith) ∙ write_ne m a x i (λ e. omega arith)

-- No byte of the copy is `v` if no byte of the text is.
abbrev pub IsFreeOf : ℕ → Bytes → Type 0
IsFreeOf v [] = Unit {0}
IsFreeOf v (x ∷ c) = (x ≢ v) × IsFreeOf v c

pub write_all-IsFreeOf :
    (m : Mem) (a v : ℕ) (c : Bytes) (i : ℕ)
    → IsFreeOf v c
    → a ≤ i
    → i < a + length c
    → write_all m a c i ≢ v
unfolding write_all
write_all-IsFreeOf m a v [] i h l g = absurd (omega arith)
write_all-IsFreeOf m a v (x ∷ c) i h l g = elim (cases a i l) [
  | inl e ↦ λ k. h.0 (
      sym (write_self m a x)
      ∙ sym (ap (write m a x) e)
      ∙ sym (write_all_ne (write m a x) (a + 1) c i (omega arith))
      ∙ k)
  | inr e ↦ write_all-IsFreeOf (write m a x) (a + 1) v c i h.1 (omega arith) (omega arith)
]
  where
    cases : (a i : ℕ) → a ≤ i → (i ≡ a) ⊎ (a + 1 ≤ i)
    cases a i h = omega arith

module _ (stop : ℕ → Bool) where
  pub seek-cong :
      (m m' : Mem) (p n : ℕ)
      → ((i : ℕ) → p ≤ i → i < p + n → m i ≡ m' i)
      → seek stop m p n ≡ seek stop m' p n
  unfolding seek
  seek-cong m m' p zero h = refl
  seek-cong m m' p (suc n) h =
      let here : m p ≡ m' p = h p (omega arith) (omega arith) in
      let rest : seek stop m (p + 1) n ≡ seek stop m' (p + 1) n =
        seek-cong m m' (p + 1) n (λ i l g. h i (omega arith) (omega arith)) in
      rw (here, rest) refl

  seek_here : (m : Mem) (p n : ℕ) → stop (m p) ≡ true → seek stop m p n ≡ p
  unfolding seek
  seek_here m p zero e = refl
  seek_here m p (suc n) e = rw e refl

  seek_later :
      (m : Mem) (p n : ℕ) → stop (m p) ≡ false → seek stop m p (suc n) ≡ seek stop m (p + 1) n
  unfolding seek
  seek_later m p n e = rw e refl

  seek_none : (m : Mem) (p : ℕ) → seek stop m p 0 ≡ p
  unfolding seek
  seek_none m p = refl

  -- A walk over `a + b` bytes is one over `a` bytes, and one over the rest from there.
  pub seek-add :
      (m : Mem) (p a b : ℕ)
      → seek stop m (seek stop m p a) (p + (a + b) - seek stop m p a) ≡ seek stop m p (a + b)
  seek-add m p zero b =
      let whole : p + (0 + b) - p ≡ 0 + b = omega arith in
      ap (λ q. seek stop m q (p + (0 + b) - q)) (seek_none m p) ∙ ap (seek stop m p) whole
  seek-add m p (suc a) b = elim (Bool-cases (stop (m p))) [
    | inl e ↦
        ap (λ q. seek stop m q (p + (suc a + b) - q)) (seek_here m p (suc a) e)
        ∙ seek_here m p (p + (suc a + b) - p) e
        ∙ sym (seek_here m p (suc a + b) e)
    | inr e ↦
        let q = seek stop m (p + 1) a in
        let same : p + (suc a + b) - q ≡ p + 1 + (a + b) - q = omega arith in
        let whole : suc (a + b) ≡ suc a + b = omega arith in
        ap (λ q. seek stop m q (p + (suc a + b) - q)) (seek_later m p a e)
        ∙ ap (seek stop m q) same
        ∙ seek-add m (p + 1) a b
        ∙ sym (seek_later m p (a + b) e)
        ∙ ap (seek stop m p) whole
  ]
