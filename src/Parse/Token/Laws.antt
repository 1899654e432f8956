-- ===== src/Parse/Token/Laws.antt =====
-- What `get_token` cuts out.
use xwp_server.Base.{
  ℕ, ◌+◌, ◌-◌, ◌≤◌, ◌<◌, ◌≡◌, ◌≢◌, Bool, true, false, none, some, ◌==◌, arith, Bool-cases, inl, inr,
  ◌⊎◌, subst, ap, sym, ◌∙◌,
}
use xwp_server.Memory.{Mem, write, seek}
use xwp_server.Memory.Walk.{seek_bounds, seek_before, seek_stops, seek_at, write_self, write_ne}
use xwp_server.Parse.Token.{Token, get_token, starts_token, ends_token}

-- What makes up a token from `p` on: the delimiters before it, its own bytes, the byte behind it,
-- which is overwritten, and nothing else changed.
pub record Cuts (delim : ℕ → Bool) (m : Mem) (p end : ℕ) (t : Token) : Type 0 where
  pub after_start : p ≤ t.token.at
  pub not_empty : 0 < t.token.len
  pub before_end : t.token.at + t.token.len ≤ end
  pub skipped : (i : ℕ) → p ≤ i → i < t.token.at → starts_token delim (m i) ≡ false
  pub bytes :
      (i : ℕ) → t.token.at < i → i < t.token.at + t.token.len → ends_token delim (m i) ≡ false
  pub first : (m t.token.at ≢ 0) × (delim (m t.token.at) ≡ false)
  pub stopped : ends_token delim (m (t.token.at + t.token.len)) ≡ true
  pub closed : t.mem (t.token.at + t.token.len) ≡ 0
  pub elsewhere : (i : ℕ) → i ≢ t.token.at + t.token.len → t.mem i ≡ m i
  pub next : t.rest ≡ t.token.at + t.token.len + 1

-- The two walks, on a buffer with its NUL at `p + n`.
module _ (delim : ℕ → Bool) (m : Mem) (p n : ℕ) (z : m (p + n) ≡ 0) where
  abbrev first_at : ℕ
  first_at = seek (starts_token delim) m p n

  abbrev left_of : ℕ
  left_of = p + n - (first_at + 1)

  abbrev behind_at : ℕ
  behind_at = seek (ends_token delim) m (first_at + 1) left_of

  first_stops : starts_token delim (m first_at) ≡ true
  first_stops = seek_stops (starts_token delim) m p n (ground arith)

  first_within : m first_at ≢ 0 → first_at < p + n
  first_within h = elim (cases (seek_bounds (starts_token delim) m p n).1) [
    | inl same ↦ absurd (h (ap m same ∙ z))
    | inr less ↦ less
  ]
    where
      cases : first_at ≤ p + n → (first_at ≡ p + n) ⊎ (first_at < p + n)
      cases h = omega arith

  behind_stops : first_at < p + n → ends_token delim (m behind_at) ≡ true
  behind_stops h =
      let last : first_at + 1 + left_of ≡ p + n = omega arith in
      let nul : m (first_at + 1 + left_of) ≡ 0 = ap m last ∙ z in
      seek_stops (ends_token delim) m (first_at + 1) left_of (ground arith)

  cut : Token
  cut = record {
    token = record { at = first_at; len = behind_at - first_at };
    mem = write m behind_at 0;
    rest = behind_at + 1;
  }

  cut-Cuts : m first_at ≢ 0 → Cuts delim m p (p + n) cut
  unfolding cut
  cut-Cuts h =
      let within = first_within h in
      let near = seek_bounds (starts_token delim) m p n in
      let far = seek_bounds (ends_token delim) m (first_at + 1) left_of in
      let sum : first_at + (behind_at - first_at) ≡ behind_at = omega arith in
      record {
        after_start = near.0;
        not_empty = omega arith;
        before_end = omega arith;
        skipped = seek_before (starts_token delim) m p n;
        bytes = λ i lo hi.
            seek_before (ends_token delim) m (first_at + 1) left_of i (omega arith) (omega arith);
        first = (h, ground (arith, first_stops));
        stopped = rw sum (behind_stops within);
        closed = rw sum (write_self m behind_at 0);
        elsewhere = λ i g. write_ne m behind_at 0 i (λ e. g (e ∙ sym sum));
        next = omega arith;
      }

  -- Where `get_token` returns 1, on a buffer with its NUL at `p + n`, it has cut out the first token.
  pub get_token-Cuts : (t : Token) → get_token delim m p n ≡ some t → Cuts delim m p (p + n) t
  unfolding get_token cut
  get_token-Cuts t e = elim (Bool-cases (m first_at == 0)) [
    | inl nul ↦ absurd (absurd_none (rw nul at e))
    | inr other ↦ subst (Cuts delim m p (p + n)) (same (rw other at e)) (cut-Cuts (nonzero other))
  ]
    where
      absurd_none : none ≡ some t → ⊥
      absurd_none h = cc

      same : some cut ≡ some t → cut ≡ t
      same h = cc

      nonzero : (m first_at == 0) ≡ false → m first_at ≢ 0
      nonzero h = ground arith

  -- It returns 0 only if nothing but delimiters stands before the first NUL.
  pub get_token-none :
      get_token delim m p n ≡ none
      → (q : ℕ) × (p ≤ q)
        × (q ≤ p + n)
        × (m q ≡ 0)
        × ((i : ℕ) → p ≤ i → i < q → (m i ≢ 0) × (delim (m i) ≡ true))
  unfolding get_token
  get_token-none e =
      let near = seek_bounds (starts_token delim) m p n in
      (
        first_at,
        near.0,
        near.1,
        ground arith,
        λ i lo hi. plain i (seek_before (starts_token delim) m p n i lo hi),
      )
    where
      plain : (i : ℕ) → starts_token delim (m i) ≡ false → (m i ≢ 0) × (delim (m i) ≡ true)
      plain i h = ground arith

-- `get_token` at a token whose place is known: `q` is its first byte, and `r` the one behind it.
pub get_token_at :
    (delim : ℕ → Bool) (m : Mem) (p n q r : ℕ)
    → p ≤ q
    → q < r
    → r ≤ p + n
    → ((i : ℕ) → p ≤ i → i < q → starts_token delim (m i) ≡ false)
    → m q ≢ 0
    → ((i : ℕ) → q ≤ i → i < r → ends_token delim (m i) ≡ false)
    → ends_token delim (m r) ≡ true
    → get_token delim m p n
      ≡ some (record { token = record { at = q; len = r - q }; mem = write m r 0; rest = r + 1 })
unfolding get_token
get_token_at delim m p n q r lo mid hi blank nz inside stop = rw (first, behind, other)
  where
    first : seek (starts_token delim) m p n ≡ q
    first =
        seek_at (starts_token delim) m p n q lo (omega arith) blank
          (ground (arith, inside q (omega arith) mid))

    behind : seek (ends_token delim) m (q + 1) (p + n - (q + 1)) ≡ r
    behind =
        seek_at (ends_token delim) m (q + 1) (p + n - (q + 1)) r (omega arith) (omega arith)
          (λ i l h. inside i (omega arith) h) stop

    other : (m q == 0) ≡ false
    other = ground arith
