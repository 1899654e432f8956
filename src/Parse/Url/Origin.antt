-- ===== src/Parse/Url/Origin.antt =====
-- URLs of the form `/path` and `/path?query`, as a client sends them.
use xwp_server.Base.{
  ℕ, zero, suc, ◌+◌, ◌-◌, ◌≤◌, ◌<◌, ◌≡◌, ◌≢◌, refl, ◌∙◌, ap, Bool, true, false, not, ◌&&◌, some,
  ◌==◌, arith, inl, inr, ◌⊎◌,
}
use xwp_server.CLib.{isspace}
use xwp_server.Memory.{Mem, write, slice}
use xwp_server.Parse.Url.{
  parse_done, stat_path, stat_query_string, Marks, no_marks, is_done, url_step, url_loop, Url,
  http_parse_url,
}

-- A byte that the walk passes over in `STAT_QUERY_STRING`; in `STAT_PATH`, if it is no `?` either.
unfoldable pub is_query_byte : ℕ → Bool
unfolding isspace
is_query_byte c = not (c == 0) && not (c == b'#') && not (isspace c)

unfoldable pub is_path_byte : ℕ → Bool
unfolding is_query_byte
is_path_byte c = is_query_byte c && not (c == b'?')

-- The walk goes on at `q` if no byte before it changes its variables.
skip :
    (m : Mem) (s : Marks) (p n q : ℕ)
    → is_done s.state ≡ false
    → p ≤ q
    → q ≤ p + n
    → ((i : ℕ) → p ≤ i → i < q → (m i ≢ 0) × (url_step s.state s i (m i) ≡ some s))
    → url_loop m s p n ≡ url_loop m s q (p + n - q)
skip m s p zero q d lo hi h =
    let same : q ≡ p = omega arith in
    let left : p + zero - q ≡ zero = omega arith in rw (left, same)
skip m s p (suc n) q d lo hi h = elim (cases p q lo) [
  | inl same ↦ let left : p + suc n - q ≡ suc n = omega arith in rw (left, same)
  | inr later ↦
      let here = h p (omega arith) later in
      let index : p + 1 + n - q ≡ p + suc n - q = omega arith in
      go here (
        skip m s (p + 1) n q d (omega arith) (omega arith) (λ i l g. h i (omega arith) g)
        ∙ ap (url_loop m s q) index)
]
  where
    cases : (p q : ℕ) → p ≤ q → (q ≡ p) ⊎ (p < q)
    cases p q h = omega arith

    go :
        (m p ≢ 0) × (url_step s.state s p (m p) ≡ some s)
        → url_loop m s (p + 1) n ≡ url_loop m s q (p + suc n - q)
        → url_loop m s p (suc n) ≡ url_loop m s q (p + suc n - q)
    go stay rest = unfold url_loop in ground arith

-- A turn over a byte of the path, and one over a byte of the query.
stay_path :
    (s : Marks) (p c : ℕ)
    → s.state ≡ stat_path
    → is_path_byte c ≡ true
    → (c ≢ 0) × (url_step s.state s p c ≡ some s)
unfolding url_step is_path_byte
stay_path s p c e h = rw e (ground arith)

stay_query :
    (s : Marks) (p c : ℕ)
    → s.state ≡ stat_query_string
    → is_query_byte c ≡ true
    → (c ≢ 0) × (url_step s.state s p c ≡ some s)
unfolding url_step is_query_byte
stay_query s p c e h = rw e (ground arith)

abbrev in_path : ℕ → Marks
in_path p = record no_marks { path_start = some p; state = stat_path }

abbrev in_query : ℕ → ℕ → Marks
in_query p q = record (in_path p) {
  path_end = some q;
  query_start = some (q + 1);
  state = stat_query_string;
}

-- The first turn at a `/`, and the turn at the `?`.
start_path :
    (m : Mem) (p n : ℕ)
    → m p ≡ b'/'
    → url_loop m no_marks p (suc n) ≡ url_loop m (in_path p) (p + 1) n
unfolding url_loop url_step
start_path m p n e = rw e

start_query :
    (m : Mem) (p q n : ℕ)
    → m q ≡ b'?'
    → url_loop m (in_path p) q (suc n) ≡ url_loop m (in_query p q) (q + 1) n
unfolding url_loop url_step
start_query m p q n e = rw e

loop_path :
    (m : Mem) (p n : ℕ)
    → m p ≡ b'/'
    → ((i : ℕ) → p < i → i < p + suc n → is_path_byte (m i) ≡ true)
    → url_loop m no_marks p (suc n) ≡ some (in_path p)
loop_path m p n e h =
    start_path m p n e
    ∙ skip m (in_path p) (p + 1) n (p + 1 + n) refl (omega arith) (omega arith)
        (λ i l g. stay_path (in_path p) i (m i) refl (h i (omega arith) (omega arith)))
    ∙ stop
  where
    stop : url_loop m (in_path p) (p + 1 + n) (p + 1 + n - (p + 1 + n)) ≡ some (in_path p)
    stop =
        let none_left : p + 1 + n - (p + 1 + n) ≡ zero = omega arith in
        rw none_left (unfold url_loop in refl)

loop_query :
    (m : Mem) (p q n : ℕ)
    → m p ≡ b'/'
    → p < q
    → q < p + suc n
    → ((i : ℕ) → p < i → i < q → is_path_byte (m i) ≡ true)
    → m q ≡ b'?'
    → ((i : ℕ) → q < i → i < p + suc n → is_query_byte (m i) ≡ true)
    → url_loop m no_marks p (suc n) ≡ some (in_query p q)
loop_query m p q n e lo hi h eq k =
    start_path m p n e
    ∙ skip m (in_path p) (p + 1) n q refl (omega arith) (omega arith)
        (λ i l g. stay_path (in_path p) i (m i) refl (h i (omega arith) g))
    ∙ ap (url_loop m (in_path p) q) one_more
    ∙ start_query m p q (p + n - q) eq
    ∙ skip m (in_query p q) (q + 1) (p + n - q) (p + suc n) refl (omega arith) (omega arith)
        (λ i l g. stay_query (in_query p q) i (m i) refl (k i (omega arith) g))
    ∙ stop
  where
    one_more : p + 1 + n - q ≡ suc (p + n - q)
    one_more = omega arith

    stop :
        url_loop m (in_query p q) (p + suc n) (q + 1 + (p + n - q) - (p + suc n))
        ≡ some (in_query p q)
    stop =
        let none_left : q + 1 + (p + n - q) - (p + suc n) ≡ zero = omega arith in
        rw none_left (unfold url_loop in refl)

-- A text that begins with `/` and holds no `?`, no `#`, no white space and no NUL is parsed as a
-- path on port 80: the path is the whole text, and a NUL is written behind it.
pub http_parse_url_path :
    (m : Mem) (u : Url) (p n : ℕ)
    → m p ≡ b'/'
    → ((i : ℕ) → p < i → i < p + suc n → is_path_byte (m i) ≡ true)
    → http_parse_url m u (record { at = p; len = suc n }) ≡ (
      parse_done,
      write m (p + suc n) 0,
      record u {
        unparsed_url = some (slice m p (suc n));
        port = 80;
        path = some (record { at = p; len = suc n });
      },
    )
unfolding http_parse_url
http_parse_url_path m u p n e h =
    let whole : p + suc n - p ≡ suc n = omega arith in
    rw (loop_path m p n e h, http_parse_url, whole)

-- A text of such a path, a `?` at `q`, and a query that holds no `#`, no white space and no NUL is
-- parsed as these two parts, each closed by a NUL.
pub http_parse_url_query :
    (m : Mem) (u : Url) (p q n : ℕ)
    → m p ≡ b'/'
    → p < q
    → q < p + suc n
    → ((i : ℕ) → p < i → i < q → is_path_byte (m i) ≡ true)
    → m q ≡ b'?'
    → ((i : ℕ) → q < i → i < p + suc n → is_query_byte (m i) ≡ true)
    → http_parse_url m u (record { at = p; len = suc n }) ≡ (
      parse_done,
      write (write m q 0) (p + suc n) 0,
      record u {
        unparsed_url = some (slice m p (suc n));
        port = 80;
        path = some (record { at = p; len = q - p });
        query_string = some (record { at = q + 1; len = p + suc n - (q + 1) });
      },
    )
unfolding http_parse_url
http_parse_url_query m u p q n e lo hi h eq k =
    rw (loop_query m p q n e lo hi h eq k, http_parse_url)
