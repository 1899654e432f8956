-- ===== src/Http/Table/Search.antt =====
-- The binary search finds what a scan from the front finds.
use xwp_server.Base.{
  ℕ, zero, suc, ◌+◌, ◌<◌, ◌≤◌, ◌≡◌, refl, sym, subst, ◌⊎◌, inl, inr, List, [], ◌∷◌, none, some,
  length, ◌-◌, ◌/◌, ltb, ltb→lt, Bool-cases, Option-cases, get_elem?, arith,
}
use xwp_server.Http.Table.{found, missing, out_of_range, search_loop, probe, search, scan}

module _ {A : Type 0} where
  -- Every key of the table before position `i` is below `status`.
  abbrev pub Below : List (ℕ × A) → ℕ → ℕ → Type 0
  Below table status i = (j : ℕ) (e : ℕ × A) → j < i → get_elem? table j ≡ some e → e.0 < status

  -- The keys grow along the table.
  abbrev pub IsSorted : List (ℕ × A) → Type 0
  IsSorted table =
      (i j : ℕ) (a b : ℕ × A)
      → i < j
      → get_elem? table i ≡ some a
      → get_elem? table j ≡ some b
      → a.0 < b.0

  scan-found :
      (table : List (ℕ × A)) (i status : ℕ) (v : A)
      → get_elem? table i ≡ some (status, v)
      → Below table status i
      → scan table status ≡ found v
  unfolding scan
  scan-found [] i status v e b = cc
  scan-found ((k, w) ∷ rest) zero status v e b = ground arith
  scan-found ((k, w) ∷ rest) (suc i) status v e b =
      let lower : k < status = b 0 (k, w) (omega arith) refl in
      ground (arith, scan-found rest i status v e (λ j a h g. b (suc j) a (omega arith) g))

  scan-missing :
      (table : List (ℕ × A)) (i status : ℕ) (a : ℕ × A)
      → get_elem? table i ≡ some a
      → status < a.0
      → Below table status i
      → scan table status ≡ missing
  unfolding scan
  scan-missing [] i status a e h b = cc
  scan-missing ((k, w) ∷ rest) zero status a e h b = ground arith
  scan-missing ((k, w) ∷ rest) (suc i) status a e h b =
      let lower : k < status = b 0 (k, w) (omega arith) refl in
      ground (arith, scan-missing rest i status a e h (λ j c l g. b (suc j) c (omega arith) g))

  scan-out_of_range :
      (table : List (ℕ × A)) (status : ℕ)
      → Below table status (length table)
      → scan table status ≡ out_of_range
  unfolding scan
  scan-out_of_range [] status b = refl
  scan-out_of_range ((k, w) ∷ rest) status b =
      let lower : k < status = b 0 (k, w) (omega arith) refl in
      ground (arith, scan-out_of_range rest status (λ j c l g. b (suc j) c (omega arith) g))

  get_elem?-none : (table : List (ℕ × A)) (i : ℕ) → get_elem? table i ≡ none → length table ≤ i
  get_elem?-none [] i e = omega arith
  get_elem?-none (x ∷ table) zero e = cc
  get_elem?-none (x ∷ table) (suc i) e = omega (arith, get_elem?-none table i e)

  get_elem?-lt :
      (table : List (ℕ × A)) (i : ℕ) {a : ℕ × A} → get_elem? table i ≡ some a → i < length table
  get_elem?-lt [] i e = cc
  get_elem?-lt (x ∷ table) zero e = omega arith
  get_elem?-lt (x ∷ table) (suc i) e = omega (arith, get_elem?-lt table i e)

  -- Either `above` is where the search starts, or a larger key stands there.
  abbrev Above : List (ℕ × A) → ℕ → ℕ → Type 0
  Above table status above =
      (above ≡ length table + 1) ⊎ ((a : ℕ × A) × (get_elem? table above ≡ some a) × (status < a.0))

  Below-suc :
      (table : List (ℕ × A)) (status mid : ℕ) (a : ℕ × A)
      → IsSorted table
      → get_elem? table mid ≡ some a
      → a.0 < status
      → Below table status (mid + 1)
  Below-suc table status mid a sorted e h j b l g = elim (lt_or_eq j mid l) [
    | inl lower ↦ omega (arith, sorted j mid b a lower g e)
    | inr same ↦ ground arith
  ]
    where
      lt_or_eq : (j mid : ℕ) → j < mid + 1 → (j < mid) ⊎ (j ≡ mid)
      lt_or_eq j mid l = omega arith

  -- Sortedness gives the bound below a hit.
  Below-hit :
      (table : List (ℕ × A)) (mid : ℕ) (a : ℕ × A)
      → IsSorted table
      → get_elem? table mid ≡ some a
      → Below table a.0 mid
  Below-hit table mid a sorted e j b l g = sorted j mid b a l g e

  search_loop-scan :
      (table : List (ℕ × A)) (status fuel low above : ℕ)
      → IsSorted table
      → low ≤ above
      → above ≤ length table + 1
      → low ≤ length table
      → above < low + fuel
      → Below table status low
      → Above table status above
      → search_loop table status fuel low above ≡ scan table status
  unfolding search_loop probe
  search_loop-scan table status zero low above sorted o n f m b u = absurd (omega arith)
  search_loop-scan table status (suc fuel) low above sorted o n f m b u =
      elim (Bool-cases (ltb low above)) [
        | inl go ↦ elim (Option-cases (get_elem? table ((low + (above - 1)) / 2))) [
          | inl e ↦
              let past : low ≡ length table = ground (arith, get_elem?-none table _ e) in
              rw (go, e) (sym (scan-out_of_range table status (subst (Below table status) past b)))
          | inr ((k, v), e) ↦
              let mid = (low + (above - 1)) / 2 in
              let inside : mid < length table = get_elem?-lt table mid e in
              let order : low < above = ltb→lt low above go in
              let at_hit : k ≡ status → scan table status ≡ found v = λ h.
                scan-found table mid status v (rw (← h) e)
                  (rw (← h) (Below-hit table mid (k, v) sorted e)) in
              let at_right : k < status
                  → search_loop table status fuel (mid + 1) above ≡ scan table status =
                λ h.
                  search_loop-scan table status fuel (mid + 1) above sorted (omega arith) n
                    (omega arith) (omega arith) (Below-suc table status mid (k, v) sorted e h) u in
              let at_left : status < k → search_loop table status fuel low mid ≡ scan table status =
                λ h.
                  search_loop-scan table status fuel low mid sorted (omega arith) (omega arith) f
                    (omega arith) b (inr ((k, v), e, h)) in
              rw (go, e) (ground arith)
        ]
        | inr stop ↦ rw stop (stopped (ground arith) u)
      ]
    where
      stopped : low ≡ above → Above table status above → missing ≡ scan table status
      stopped same (inl top) = absurd (omega arith)
      stopped same (inr (a, e, h)) =
          sym (scan-missing table above status a e h (subst (Below table status) same b))

  pub search-scan :
      (table : List (ℕ × A)) (status : ℕ) → IsSorted table → search table status ≡ scan table status
  unfolding search
  search-scan table status sorted =
      search_loop-scan table status (length table + 2) 0 (length table + 1) sorted (omega arith)
        (omega arith) (omega arith) (omega arith) (λ j e l g. absurd (omega arith)) (inl refl)
