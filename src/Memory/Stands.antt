-- ===== src/Memory/Stands.antt =====
-- A text that stands in the memory, by its bytes.
use xwp_server.Base.{
  ℕ, suc, ◌+◌, ◌≤◌, ◌<◌, ◌≡◌, refl, Bool, arith, inl, inr, ◌⊎◌, ◌∙◌, ap, length, [], ◌∷◌, ◌++◌,
}
use xwp_server.CLib.{Bytes}
use xwp_server.Memory.Pieces.{write_all_ne}
use xwp_server.Memory.Walk.{write_self}
use xwp_server.Memory.{Mem, write, write_all, slice}

abbrev pub Stands : Mem → ℕ → Bytes → Type 0
Stands m a [] = Unit {0}
Stands m a (x ∷ c) = (m a ≡ x) × Stands m (a + 1) c

-- Every byte of the text gives `v`.
abbrev pub AllAre : (ℕ → Bool) → Bool → Bytes → Type 0
AllAre f v [] = Unit {0}
AllAre f v (x ∷ c) = (f x ≡ v) × AllAre f v c

pub write_all-Stands : (m : Mem) (a : ℕ) (c : Bytes) → Stands (write_all m a c) a c
unfolding write_all
write_all-Stands m a [] = tt
write_all-Stands m a (x ∷ c) = (
  write_all_ne (write m a x) (a + 1) c a (omega arith) ∙ write_self m a x,
  write_all-Stands (write m a x) (a + 1) c,
)

pub Stands-append :
    (m : Mem) (a : ℕ) (c d : Bytes) → Stands m a (c ++ d) → Stands m a c × Stands m (a + length c) d
Stands-append m a [] d h = let e : a + 0 ≡ a = omega arith in (tt, rw e h)
Stands-append m a (x ∷ c) d h =
    let rest = Stands-append m (a + 1) c d h.1 in
    let e : a + suc (length c) ≡ a + 1 + length c = omega arith in ((h.0, rest.0), rw e rest.1)

pub Stands-slice : (m : Mem) (a : ℕ) (c : Bytes) → Stands m a c → slice m a (length c) ≡ c
unfolding slice
Stands-slice m a [] h = refl
Stands-slice m a (x ∷ c) h = let rest = Stands-slice m (a + 1) c h.1 in let here = h.0 in cc

pub Stands-AllAre :
    (m : Mem) (a : ℕ) (f : ℕ → Bool) (v : Bool) (c : Bytes)
    → Stands m a c
    → AllAre f v c
    → (i : ℕ) → a ≤ i
    → i < a + length c
    → f (m i) ≡ v
Stands-AllAre m a f v [] h k i l g = absurd (omega arith)
Stands-AllAre m a f v (x ∷ c) h k i l g = elim (cases a i l) [
  | inl e ↦ ap (λ i. f (m i)) e ∙ ap f h.0 ∙ k.0
  | inr e ↦ Stands-AllAre m (a + 1) f v c h.1 k.1 i e (omega arith)
]
  where
    cases : (a i : ℕ) → a ≤ i → (i ≡ a) ⊎ (a + 1 ≤ i)
    cases a i h = omega arith

pub Stands-cong :
    (m m' : Mem) (a : ℕ) (c : Bytes)
    → ((i : ℕ) → a ≤ i → i < a + length c → m i ≡ m' i)
    → Stands m' a c
    → Stands m a c
Stands-cong m m' a [] h s = tt
Stands-cong m m' a (x ∷ c) h s = (
  h a (omega arith) (omega arith) ∙ s.0,
  Stands-cong m m' (a + 1) c (λ i l k. h i (omega arith) (omega arith)) s.1,
)

pub AllAre-map :
    (f g : ℕ → Bool) (v w : Bool) (c : Bytes)
    → ((x : ℕ) → f x ≡ v → g x ≡ w)
    → AllAre f v c
    → AllAre g w c
AllAre-map f g v w [] h k = tt
AllAre-map f g v w (x ∷ c) h k = (h x k.0, AllAre-map f g v w c h k.1)
