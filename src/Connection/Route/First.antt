-- ===== src/Connection/Route/First.antt =====
-- The location that is chosen is the first that matches.
use xwp_server.Base.{
  ◌≡◌, Bool, true, false, List, [], ◌∷◌, ◌++◌, Option, none, some, arith, Bool-cases, inl, inr, ap,
  ◌∙◌,
}
use xwp_server.CLib.{Bytes}
use xwp_server.Connection.Route.{Loc, Vhost, first, find_loc, find_vhost, route}

-- No element passes the test.
abbrev pub Fail {ℓ} : {A : Type ℓ} → (A → Bool) → List A → Type 0
Fail test [] = Unit {0}
Fail test (x ∷ xs) = (test x ≡ false) × Fail test xs

module _ {A : Type 0} (test : A → Bool) where
  -- Where the list splits at its first element that passes.
  pub record Splits (xs : List A) (x : A) : Type 0 where
    pub before : List A
    pub after : List A
    pub whole : xs ≡ before ++ x ∷ after
    pub passes : test x ≡ true
    pub skipped : Fail test before

  first-some : (xs : List A) (x : A) → first test xs ≡ some x → Splits xs x
  unfolding first
  first-some [] x e = absurd (impossible e)
    where
      impossible : none ≡ some x → ⊥
      impossible h = cc
  first-some (y ∷ xs) x e = elim (Bool-cases (test y)) [
    | inl hit ↦ record {
      before = [];
      after = xs;
      whole = ap (λ z. z ∷ xs) (same hit);
      passes = ground arith;
      skipped = tt;
    }
    | inr miss ↦
        let later : Splits xs x = first-some xs x (rw miss at e) in
        record {
          before = y ∷ later.before;
          after = later.after;
          whole = ap (λ l. y ∷ l) later.whole;
          passes = later.passes;
          skipped = (miss, later.skipped);
        }
  ]
    where
      same : test y ≡ true → y ≡ x
      same hit = ground arith

  pub first-Splits : (xs : List A) (x : A) → Splits xs x → first test xs ≡ some x
  unfolding first
  first-Splits xs x s = ap (first test) s.whole ∙ behind s.before s.skipped
    where
      behind : (before : List A) → Fail test before → first test (before ++ x ∷ s.after) ≡ some x
      behind [] h = ground (arith, s.passes)
      behind (y ∷ before) h = rw h.0 (behind before h.1)

  first-none : (xs : List A) → first test xs ≡ none → Fail test xs
  unfolding first
  first-none [] e = tt
  first-none (y ∷ xs) e = ground (arith, first-none xs)

module _ (matches : Bytes → Bytes → Bool) where
  -- A routed request goes to the first location of its virtual host whose pattern matches its path.
  pub route-some :
      (default : Vhost) (vhosts : List Vhost) (host : Option Bytes) (path : Bytes) (l : Loc)
      → route matches default vhosts host path ≡ some l
      → Splits (λ l. matches l.pattern path) (find_vhost default vhosts host).locs l
  unfolding route find_loc
  route-some default vhosts host path l e =
      first-some (λ l. matches l.pattern path) (find_vhost default vhosts host).locs l e

  -- It is answered with 400 only if no pattern of its virtual host matches.
  pub route-none :
      (default : Vhost) (vhosts : List Vhost) (host : Option Bytes) (path : Bytes)
      → route matches default vhosts host path ≡ none
      → Fail (λ l. matches l.pattern path) (find_vhost default vhosts host).locs
  unfolding route find_loc
  route-none default vhosts host path e =
      first-none (λ l. matches l.pattern path) (find_vhost default vhosts host).locs e
