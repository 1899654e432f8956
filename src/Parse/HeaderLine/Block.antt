-- ===== src/Parse/HeaderLine/Block.antt =====
-- A whole block of header lines.
use xwp_server.Base.{
  ℕ, zero, suc, ◌+◌, ◌-◌, ◌≤◌, ◌<◌, ◌≡◌, refl, sym, ◌∙◌, ap, true, List, [], ◌∷◌, length, some, ltb,
  arith, inl, inr, ◌⊎◌,
}
use xwp_server.CLib.{Bytes, isspace}
use xwp_server.Http.Headers.{Header, http_header_set}
use xwp_server.Memory.Walk.{seek_at, write_ne, length-slice, slice-cong}
use xwp_server.Memory.{Mem, write, seek, slice}
use xwp_server.Parse.HeaderLine.Reads.{IsHeader, header_round-IsHeader}
use xwp_server.Parse.HeaderLine.{
  stop, is_empty_line, header_round, header_loop, http_parse_header_line,
}
use xwp_server.Request.{Buf}
use xwp_server.Parse.Token.{find_next_eol, ends_line}
use xwp_server.Parse.Url.{parse_done}

-- From `p` on there are header lines with these names and values, and then an empty line that ends
-- before `q`.
pub data IsBlock (m : Mem) (end : ℕ) : ℕ → List (Bytes × Bytes) → ℕ → Type 0 where
  empty : (p : ℕ) → p + 1 ≤ end → m p ≡ b'\r' → m (p + 1) ≡ b'\n' → IsBlock m end p [] (p + 2)
  line :
      (p c v e q : ℕ) (name value : Bytes) (fields : List (Bytes × Bytes))
      → IsHeader m p c v e end
      → slice m p (c - p) ≡ name
      → slice m v (e - v) ≡ value
      → IsBlock m end (e + 1 + 1) fields q
      → IsBlock m end p ((name, value) ∷ fields) q

-- The fields, set one after another.
abbrev pub set_all : List Header → List (Bytes × Bytes) → List Header
set_all headers [] = headers
set_all headers ((name, value) ∷ fields) =
    set_all (http_header_set headers name (record { text = some value; len = length value })) fields

IsHeader-cong :
    (m m' : Mem) (p c v e end : ℕ)
    → ((i : ℕ) → p ≤ i → m' i ≡ m i)
    → IsHeader m p c v e end
    → IsHeader m' p c v e end
IsHeader-cong m m' p c v e end same h = record {
  name_some = h.name_some;
  value_after = h.value_after;
  value_some = h.value_some;
  fits = h.fits;
  small = h.small;
  plain = λ i l k. ap ends_line (same i l) ∙ h.plain i l k;
  no_colon = λ i l k z. h.no_colon i l k (sym (same i l) ∙ z);
  name_first = ap isspace (same p (omega arith)) ∙ h.name_first;
  name_last = ap isspace (same (c - 1) (omega (arith, h.name_some))) ∙ h.name_last;
  colon = same c (omega (arith, h.name_some)) ∙ h.colon;
  blank = λ i l k. ap isspace (same i (omega (arith, h.name_some, l))) ∙ h.blank i l k;
  value_first = ap isspace (same v (omega (arith, h.name_some, h.value_after))) ∙ h.value_first;
  carriage = same e (omega (arith, h.name_some, h.value_after, h.value_some)) ∙ h.carriage;
  newline = same (e + 1) (omega (arith, h.name_some, h.value_after, h.value_some)) ∙ h.newline;
}

IsBlock-cong :
    (m m' : Mem) (end p q : ℕ) (fields : List (Bytes × Bytes))
    → ((i : ℕ) → p ≤ i → m' i ≡ m i)
    → IsBlock m end p fields q
    → IsBlock m' end p fields q
IsBlock-cong m m' end p q fields same (empty _ f c n) =
    empty p f (same p (omega arith) ∙ c) (same (p + 1) (omega arith) ∙ n)
IsBlock-cong m m' end p _ _ same (line _ c v e q name value fields h n k b) =
    line p c v e q name value fields (IsHeader-cong m m' p c v e end same h)
      (slice-cong m' m p (c - p) (λ i l g. same i l) ∙ n)
      (slice-cong m' m v (e - v) (λ i l g. same i (omega (arith, h.name_some, h.value_after, l)))
        ∙ k)
      (IsBlock-cong m m' end (e + 1 + 1) q fields
        (λ i l. same i (omega (arith, h.name_some, h.value_after, h.value_some, l))) b)

lt-IsBlock :
    (m : Mem) (end p q : ℕ) (fields : List (Bytes × Bytes)) → IsBlock m end p fields q → p < q
lt-IsBlock m end p _ _ (empty _ f c n) = omega arith
lt-IsBlock m end p _ _ (line _ c v e q name value fields h n k b) =
    omega (arith, lt-IsBlock m end (e + 1 + 1) q fields b, h.name_some, h.value_after, h.value_some)

header_round-empty :
    (m : Mem) (p end : ℕ) (headers : List Header)
    → p + 1 ≤ end
    → m p ≡ b'\r'
    → m (p + 1) ≡ b'\n'
    → header_round end (record { mem = m; pos = p; headers = headers })
      ≡ stop parse_done (record { mem = m; pos = p + 1 + 1; headers = headers })
unfolding header_round is_empty_line find_next_eol
header_round-empty m p end headers f c n = rw (found_eol, header_round, is_empty)
  where
    at_eol : seek ends_line m p (end - p) ≡ p + 1
    at_eol =
        seek_at ends_line m p (end - p) (p + 1) (omega arith) (omega arith)
          (λ i l h. let here : i ≡ p = omega arith in ap (λ i. ends_line (m i)) here ∙ rw c refl)
          (rw n refl)

    found_eol : find_next_eol m p (end - p) ≡ some (p + 1)
    found_eol = rw (at_eol, find_next_eol, n)

    is_empty : is_empty_line m p (p + 1) ≡ true
    is_empty = ground arith

-- The two NULs of a line are written before the next one.
untouched :
    (m : Mem) (c e : ℕ)
    → c < e
    → (i : ℕ) → e + 1 + 1 ≤ i
    → write (write (write m c 0) c 0) e 0 i ≡ m i
untouched m c e l i h =
    write_ne (write (write m c 0) c 0) e 0 i (λ z. omega arith)
    ∙ write_ne (write m c 0) c 0 i (λ z. omega arith)
    ∙ write_ne m c 0 i (λ z. omega arith)

untouched_before :
    (m : Mem) (c e : ℕ) → c < e → (i : ℕ) → i < c → write (write (write m c 0) c 0) e 0 i ≡ m i
untouched_before m c e l i h =
    write_ne (write (write m c 0) c 0) e 0 i (λ z. omega arith)
    ∙ write_ne (write m c 0) c 0 i (λ z. omega arith)
    ∙ write_ne m c 0 i (λ z. omega arith)

set_field :
    (headers : List Header) (m : Mem) (p c v e : ℕ) (name value : Bytes)
    → slice m p (c - p) ≡ name
    → slice m v (e - v) ≡ value
    → http_header_set headers
        (slice m p (c - p))
        (record { text = some (slice m v (e - v)); len = e - v })
      ≡ http_header_set headers name (record { text = some value; len = length value })
set_field headers m p c v e name value n t =
    ap
      (λ k.
        http_header_set headers (slice m p (c - p))
          (record { text = some (slice m v (e - v)); len = k }))
      (sym (length-slice m v (e - v)))
    ∙ ap
        (λ x.
          http_header_set headers x
            (record { text = some (slice m v (e - v)); len = length (slice m v (e - v)) }))
        n
    ∙ ap (λ x. http_header_set headers name (record { text = some x; len = length x })) t

-- The loop on such a block: it writes nowhere else.
header_loop-IsBlock :
    (fuel last end p q : ℕ) (m : Mem) (headers : List Header) (fields : List (Bytes × Bytes))
    → IsBlock m end p fields q
    → q ≤ last
    → last ≤ p + fuel
    → let (code, l) = header_loop fuel last end (record { mem = m; pos = p; headers = headers }) in
      (code ≡ parse_done)
      × (l.pos ≡ q)
      × (l.headers ≡ set_all headers fields)
      × ((i : ℕ) → (i < p) ⊎ (q ≤ i) → l.mem i ≡ m i)
unfolding header_loop
header_loop-IsBlock zero last end p q m headers fields b h k =
    absurd (omega (arith, lt-IsBlock m end p q fields b))
header_loop-IsBlock (suc fuel) last end p q m headers _ (empty _ f c n) h k =
    let goes : ltb p last ≡ true = ground arith in
    rw (goes, header_round-empty m p end headers f c n, header_loop)
      (refl, omega arith, refl, λ i l. refl)
header_loop-IsBlock (suc fuel) last end p _ m headers _ (line _ c v e q name value fields d n t b) h
      k =
    let goes : ltb p last ≡ true =
      ground (
        arith,
        lt-IsBlock m end (e + 1 + 1) q fields b,
        d.name_some,
        d.value_after,
        d.value_some,
      ) in
    let cut = write (write (write m c 0) c 0) e 0 in
    let set : List Header =
      http_header_set headers (slice m p (c - p))
        (record { text = some (slice m v (e - v)); len = e - v }) in
    let later =
      IsBlock-cong m cut end (e + 1 + 1) q fields
        (untouched m c e (omega (arith, d.value_after, d.value_some))) b in
    let rest =
      header_loop-IsBlock fuel last end (e + 1 + 1) q cut set fields later h
        (omega (arith, d.name_some, d.value_after, d.value_some)) in
    rw (goes, header_round-IsHeader m p c v e end d headers, header_loop)
      (
        rest.0,
        rest.1,
        rest.2 ∙ ap (λ hs. set_all hs fields) (set_field headers m p c v e name value n t),
        λ i l. elim l [
          | inl before ↦
              rest.3 i (inl (omega (arith, d.name_some, d.value_after, d.value_some)))
              ∙ untouched_before m c e (omega (arith, d.value_after, d.value_some)) i
                  (omega (arith, d.name_some))
          | inr after ↦
              rest.3 i (inr after)
              ∙ untouched m c e (omega (arith, d.value_after, d.value_some)) i
                  (omega (arith, lt-IsBlock m end (e + 1 + 1) q fields b))
        ],
      )

-- A buffer that holds a block of header lines, each in order, and an empty line behind them, all before
-- `last`: `http_parse_header_line` is done, the buffer stands behind the empty line, and the headers
-- are those that there were, with the names and the values of the lines set one after another.
pub http_parse_header_line-IsBlock :
    (m : Mem) (b : Buf) (headers : List Header) (fields : List (Bytes × Bytes)) (q : ℕ)
    → IsBlock m b.end b.pos fields q
    → q ≤ b.last
    → let (code, m', b', headers') = http_parse_header_line m b headers in
      (code ≡ parse_done) × (b'.pos ≡ q) × (headers' ≡ set_all headers fields)
unfolding http_parse_header_line
http_parse_header_line-IsBlock m b headers fields q block h =
    let read =
      header_loop-IsBlock (b.last - b.pos) b.last b.end b.pos q m headers fields block h
        (omega arith) in
    (read.0, read.1, read.2)

-- It writes between the first byte of the block and its end.
pub http_parse_header_line_kept :
    (m : Mem) (b : Buf) (headers : List Header) (fields : List (Bytes × Bytes)) (q : ℕ)
    → IsBlock m b.end b.pos fields q
    → q ≤ b.last
    → let (code, m', b', headers') = http_parse_header_line m b headers in
      (b' ≡ record b { pos = q }) × ((i : ℕ) → (i < b.pos) ⊎ (q ≤ i) → m' i ≡ m i)
unfolding http_parse_header_line
http_parse_header_line_kept m b headers fields q block h =
    let read =
      header_loop-IsBlock (b.last - b.pos) b.last b.end b.pos q m headers fields block h
        (omega arith) in
    (ap (λ n. record b { pos = n }) read.1, read.3)
