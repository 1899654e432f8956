-- ===== src/CLib/Compare.antt =====
-- Laws of the string comparisons.
use xwp_server.Base.{
  ℕ, zero, suc, ◌≡◌, refl, Bool, true, false, [], ◌∷◌, ◌++◌, length, ◌==◌, if◌then◌else◌, arith,
}
use xwp_server.CLib.{Bytes, agree, tolower, strcmp_eq}

-- A comparison over the length of its first string is a prefix test.
pub agree-append : (f : ℕ → ℕ) (s t : Bytes) → agree f (length s) s (s ++ t) ≡ true
unfolding agree
agree-append f [] t = refl
agree-append f (x ∷ s) t = ground (arith, agree-append f s t)

pub agree_self : (f : ℕ → ℕ) (s : Bytes) → agree f (length s) s s ≡ true
unfolding agree
agree_self f [] = refl
agree_self f (x ∷ s) = ground (arith, agree_self f s)

-- A case-sensitive match is one without regard to case.
pub agree-case : (n : ℕ) (s t : Bytes) → agree (λ c. c) n s t ≡ true → agree tolower n s t ≡ true
unfolding agree
agree-case zero s t h = refl
agree-case (suc n) [] [] h = refl
agree-case (suc n) [] (y ∷ t) h = cc
agree-case (suc n) (x ∷ s) [] h = cc
agree-case (suc n) (x ∷ s) (y ∷ t) h = ground (arith, agree-case n s t)

-- The two strings differ, without regard to case, before either ends.
unfoldable pub differ : Bytes → Bytes → Bool
unfolding tolower
differ [] t = false
differ (x ∷ s) [] = false
differ (x ∷ s) (y ∷ t) = if tolower x == tolower y then differ s t else true

-- No string starts with both of two strings that differ.
pub agree-differ :
    (q n s : Bytes)
    → differ q n ≡ true
    → agree (λ c. c) (length n) n s ≡ true
    → agree tolower (length q) q s ≡ false
unfolding agree differ
agree-differ [] n s d h = cc
agree-differ (x ∷ q) [] s d h = cc
agree-differ (x ∷ q) (y ∷ n) [] d h = cc
agree-differ (x ∷ q) (y ∷ n) (z ∷ s) d h = ground (arith, agree-differ q n s)

pub strcmp_eq_self : (s : Bytes) → strcmp_eq s s ≡ true
unfolding strcmp_eq
strcmp_eq_self [] = refl
strcmp_eq_self (x ∷ s) = ground (arith, strcmp_eq_self s)
