-- ===== src/Parse/HeaderLine/Reads.antt =====
-- What a header line is read as.
use xwp_server.Base.{
  ℕ, suc, ◌+◌, ◌-◌, ◌≤◌, ◌<◌, ◌^◌, ◌≡◌, ◌≢◌, sym, ◌∙◌, ap, true, false, not, List, some, ◌==◌,
  arith,
}
use xwp_server.CLib.{isspace}
use xwp_server.Http.Headers.{Str, Header, http_header_set}
use xwp_server.Memory.Walk.{seek_at, write_self, write_ne, slice-cong}
use xwp_server.Memory.{Mem, write, seek, slice, c_string}
use xwp_server.Parse.HeaderLine.{
  trimmed, next, size_t_sub, value_end, read_value, read_name, is_colon, is_empty_line, read_line,
  header_round,
}
use xwp_server.Parse.RequestLine.{skip_space}
use xwp_server.Parse.Token.Laws.{get_token_at}
use xwp_server.Parse.Token.{find_next_eol, get_token, ends_line}

-- The line `name: value\r\n` in a buffer that ends at `end`: the name from `p` up to the colon at `c`,
-- the value from `v` up to the carriage return at `e`.
pub record IsHeader (m : Mem) (p c v e end : ℕ) : Type 0 where
  pub name_some : p < c
  pub value_after : c < v
  pub value_some : v < e
  pub fits : e + 1 ≤ end
  pub small : end < 2 ^ 64
  pub plain : (i : ℕ) → p ≤ i → i < e + 1 → ends_line (m i) ≡ false
  pub no_colon : (i : ℕ) → p ≤ i → i < c → m i ≢ b':'
  pub name_first : isspace (m p) ≡ false
  pub name_last : isspace (m (c - 1)) ≡ false
  pub colon : m c ≡ b':'
  pub blank : (i : ℕ) → c < i → i < v → isspace (m i) ≡ true
  pub value_first : isspace (m v) ≡ false
  pub carriage : m e ≡ b'\r'
  pub newline : m (e + 1) ≡ b'\n'

trimmed_full : (m : Mem) (at n : ℕ) → isspace (m (at + n)) ≡ false → trimmed m at (suc n) ≡ suc n
unfolding trimmed
trimmed_full m at n h = rw h

module _ (m : Mem) (p c v e end : ℕ) (line : IsHeader m p c v e end) where
  open line use {
    name_some, value_after, value_some, fits, small, plain, no_colon, name_first, name_last, colon,
    blank, value_first, carriage, newline,
  }

  eol_found : find_next_eol m p (end - p) ≡ some (e + 1)
  unfolding find_next_eol
  eol_found = rw (at_eol, newline)
    where
      at_eol : seek ends_line m p (end - p) ≡ e + 1
      at_eol =
          seek_at ends_line m p (end - p) (e + 1) (omega arith) (omega arith) plain (rw newline)

  not_empty : is_empty_line m p (e + 1) ≡ false
  unfolding is_empty_line
  not_empty = ground arith

  stays : skip_space m p (e + 1 - p) ≡ p
  unfolding skip_space
  stays =
      seek_at (λ c. not (isspace c)) m p (e + 1 - p) p (omega arith) (omega arith)
        (λ i l h. absurd (omega arith)) (rw name_first)

  abbrev cut_name : Mem
  cut_name = write m c 0

  name_cut :
      get_token is_colon m p (end - p)
      ≡ some (record { token = record { at = p; len = c - p }; mem = cut_name; rest = c + 1 })
  unfolding is_colon
  name_cut =
      get_token_at is_colon m p (end - p) p c (omega arith) name_some (omega arith)
        (λ i l h. absurd (omega arith)) (ground (arith, plain p (omega arith) (omega arith)))
        (λ i l h. ground (arith, plain i l (omega arith), no_colon i l h)) (rw colon)

  -- The memory once the name is cut out and trimmed.
  abbrev named : Mem
  named = write cut_name c 0

  named_ne : (i : ℕ) → i ≢ c → named i ≡ m i
  named_ne i h = write_ne cut_name c 0 i h ∙ write_ne m c 0 i h

  name_full : trimmed cut_name p (c - p) ≡ c - p
  name_full =
      let size : c - p ≡ suc (c - p - 1) = omega arith in
      let last : p + (c - p - 1) ≡ c - 1 = omega arith in
      let byte : cut_name (c - 1) ≡ m (c - 1) = write_ne m c 0 (c - 1) (omega arith) in
      let solid : isspace (cut_name (p + (c - p - 1))) ≡ false =
        ap (λ i. isspace (cut_name i)) last ∙ ap isspace byte ∙ name_last in
      ap (trimmed cut_name p) size ∙ trimmed_full cut_name p (c - p - 1) solid ∙ sym size

  value_found : skip_space named (c + 1) (e + 1 - (c + 1)) ≡ v
  unfolding skip_space
  value_found =
      seek_at (λ c. not (isspace c)) named (c + 1) (e + 1 - (c + 1)) v (omega arith) (omega arith)
        (λ i l h.
          ap (λ b. not (isspace b)) (named_ne i (omega arith)) ∙ ap not (blank i (omega arith) h))
        (ap (λ b. not (isspace b)) (named_ne v (omega arith)) ∙ ap not value_first)

  name_bytes : slice named p (c - p) ≡ slice m p (c - p)
  name_bytes = slice-cong named m p (c - p) (λ i l h. named_ne i (omega arith))

  -- The memory once the value is closed.
  abbrev valued : Mem
  valued = write named e 0

  end_found : value_end named (e + 1) ≡ e
  unfolding value_end
  end_found =
      let back : e + 1 - 1 ≡ e = omega arith in
      let byte : named e ≡ b'\r' = named_ne e (omega arith) ∙ carriage in rw (back, byte)

  nonzero : (i : ℕ) → v ≤ i → i < e → (valued i == 0) ≡ false
  nonzero i l h =
      let byte : valued i ≡ m i = write_ne named e 0 i (omega arith) ∙ named_ne i (omega arith) in
      ground (arith, byte, plain i (omega arith) (omega arith))

  value_bytes : c_string valued v (end + 1 - v) ≡ slice m v (e - v)
  unfolding c_string
  value_bytes =
      let stop : seek (λ c. c == 0) valued v (end + 1 - v) ≡ e =
        seek_at (λ c. c == 0) valued v (end + 1 - v) e (omega arith) (omega arith) nonzero
          (rw (write_self named e 0)) in
      ap (λ q. slice valued v (q - v)) stop
      ∙ slice-cong valued m v (e - v)
          (λ i l h. write_ne named e 0 i (omega arith) ∙ named_ne i (omega arith))

  size_found : size_t_sub e v ≡ e - v
  size_found = omega arith

  abbrev field : Str
  field = record { text = some (slice m v (e - v)); len = e - v }

  value_read :
      (name : List ℕ) (headers : List Header)
      → read_value end (e + 1) name (record { mem = named; pos = v; headers = headers })
        ≡ next
            (record { mem = valued; pos = e + 1 + 1; headers = http_header_set headers name field })
  unfolding read_value
  value_read name headers =
      let solid : (named v == 0) ≡ false =
        ground (arith, named_ne v (omega arith), plain v (omega arith) (omega arith)) in
      let inside : (v == e + 1) ≡ false = ground arith in
      rw (solid, inside, end_found, value_bytes, size_found)

  name_read :
      (headers : List Header)
      → read_name end
          (e + 1)
          (record { token = record { at = p; len = c - p }; mem = cut_name; rest = c + 1 })
          (record { mem = m; pos = p; headers = headers })
        ≡ next (record {
          mem = valued;
          pos = e + 1 + 1;
          headers = http_header_set headers (slice m p (c - p)) field;
        })
  unfolding read_name
  name_read headers =
      let place : p + (c - p) ≡ c = omega arith in
      rw (name_full, place, value_found, name_bytes) (value_read (slice m p (c - p)) headers)

  line_read :
      (headers : List Header)
      → read_line end (e + 1) (record { mem = m; pos = p; headers = headers })
        ≡ next (record {
          mem = valued;
          pos = e + 1 + 1;
          headers = http_header_set headers (slice m p (c - p)) field;
        })
  unfolding read_line
  line_read headers =
      let solid : (m p == 0) ≡ false = ground (arith, plain p (omega arith) (omega arith)) in
      let inside : (p == e + 1) ≡ false = ground arith in
      rw (solid, inside, name_cut, read_line) (name_read headers)

  -- A round of the header parser on such a line sets the header: its name and its value are the bytes
  -- before the colon and those between the blanks and the carriage return; a NUL is written over the
  -- colon and over the carriage return, and the next round begins behind the line.
  pub header_round-IsHeader :
      (headers : List Header)
      → header_round end (record { mem = m; pos = p; headers = headers })
        ≡ next (record {
          mem = valued;
          pos = e + 1 + 1;
          headers = http_header_set headers (slice m p (c - p)) field;
        })
  unfolding header_round
  header_round-IsHeader headers = rw (eol_found, header_round, not_empty, stays) (line_read headers)
