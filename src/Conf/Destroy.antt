-- ===== src/Conf/Destroy.antt =====
-- `conf_destroy` of src/conf.c: its two loops share the variable `i`.
use xwp_server.Base.{
  ℕ, zero, suc, ◌+◌, ◌<◌, ◌≡◌, ◌≢◌, refl, List, [], ◌∷◌, ◌++◌, Option, none, some, length,
  get_elem?, arith, Option-cases, inl, inr,
}

-- `regfree` of the first `n` patterns of a virtual host, by the numbers of both.
unfoldable pub free_patterns : ℕ → ℕ → List (ℕ × ℕ)
free_patterns vhost zero = []
free_patterns vhost (suc n) = free_patterns vhost n ++ (vhost, n) ∷ []

-- The loops, from the numbers of locations of the virtual hosts. The inner one leaves `i` at that
-- number, and the outer one goes on behind it. `none` is that the rounds have run out.
unfoldable pub destroy_loop : List ℕ → ℕ → ℕ → List (ℕ × ℕ) → Option (List (ℕ × ℕ))
unfolding free_patterns
destroy_loop counts zero i freed = none
destroy_loop counts (suc rounds) i freed = elim (get_elem? counts i) [
  | none ↦ some freed
  | some n ↦ destroy_loop counts rounds (n + 1) (freed ++ free_patterns i n)
]

unfoldable pub conf_destroy : List ℕ → ℕ → Option (List (ℕ × ℕ))
unfolding destroy_loop
conf_destroy counts rounds = destroy_loop counts rounds 0 []

-- Every virtual host has two locations less than there are virtual hosts, or fewer.
abbrev pub AllShort : ℕ → List ℕ → Type 0
AllShort total [] = Unit {0}
AllShort total (n ∷ counts) = (n + 1 < total) × AllShort total counts

AllShort-get :
    (total i n : ℕ) (counts : List ℕ)
    → AllShort total counts
    → get_elem? counts i ≡ some n
    → n + 1 < total
AllShort-get total i n [] h e = ground arith
AllShort-get total zero n (c ∷ counts) h e = ground arith
AllShort-get total (suc i) n (c ∷ counts) h e = AllShort-get total i n counts h.1 e

get_none-le : (counts : List ℕ) (i : ℕ) → i < length counts → get_elem? counts i ≢ none
get_none-le [] i h e = absurd (omega arith)
get_none-le (c ∷ counts) zero h e = cc
get_none-le (c ∷ counts) (suc i) h e = get_none-le counts i (omega arith) e

destroy_loop_runs :
    (counts : List ℕ) (rounds i : ℕ) (freed : List (ℕ × ℕ))
    → AllShort (length counts) counts
    → i < length counts
    → destroy_loop counts rounds i freed ≡ none
unfolding destroy_loop
destroy_loop_runs counts zero i freed h k = refl
destroy_loop_runs counts (suc rounds) i freed h k = elim (Option-cases (get_elem? counts i)) [
  | inl e ↦ absurd (get_none-le counts i k e)
  | inr (n, e) ↦
      rw (e, destroy_loop)
        (destroy_loop_runs counts rounds (n + 1) (freed ++ free_patterns i n) h
          (AllShort-get (length counts) i n counts h e))
]

-- The destruction of a configuration never ends if each of its virtual hosts has two locations less
-- than there are virtual hosts, or fewer still: after any number of rounds the outer loop goes on.
pub conf_destroy_never_ends :
    (n : ℕ) (counts : List ℕ) (rounds : ℕ)
    → AllShort (length (n ∷ counts)) (n ∷ counts)
    → conf_destroy (n ∷ counts) rounds ≡ none
unfolding conf_destroy
conf_destroy_never_ends n counts rounds h =
    destroy_loop_runs (n ∷ counts) rounds 0 [] h (omega arith)
