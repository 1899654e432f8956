-- ===== src/Process/Pieces.antt =====
-- A request line or a status line that arrives in pieces.
pub mod Joined
pub mod Line
pub mod Served
pub mod Fields
pub mod Accepted
use xwp_server.Base.{
  ℤ, pos, pos_part, ℕ, ◌+◌, ◌-◌, ◌≤◌, ◌<◌, ◌≡◌, ◌≢◌, refl, sym, ap, ◌∙◌, true, not, none, some,
  arith, true≢false, inl, inr, ◌⊎◌,
}
use xwp_server.CLib.{isspace}
use xwp_server.Memory.Walk.{seek_bounds, seek_before, seek_stops}
use xwp_server.Memory.{Mem, seek}
use xwp_server.Parse.RequestLine.{skip_space, request_tokens, http_parse_request_line}
use xwp_server.Parse.Token.{find_next_eol, ends_line}
use xwp_server.Parse.Url.{Code, parse_again}
use xwp_server.Process.{Parser, status_parser}
use xwp_server.Parse.StatusLine.{status_tokens, http_parse_status_line}
use xwp_server.Request.{Buf, Request}

-- A buffer whose unread bytes hold no line's end, with zeros behind them.
abbrev pub Waits : Mem → Buf → Type 0
Waits m b =
    (b.pos ≤ b.last)
    × (b.last ≤ b.end)
    × ((i : ℕ) → b.pos ≤ i → i < b.last → m i ≢ b'\n')
    × ((i : ℕ) → b.last ≤ i → i ≤ b.end → m i ≡ 0)

ends_zero : (c : ℕ) → c ≢ b'\n' → ends_line c ≡ true → c ≡ 0
ends_zero c h e = ground arith

zero_ends : (c : ℕ) → c ≡ 0 → ends_line c ≡ true
zero_ends c e = ground arith

-- No line's end is found in front of a zero.
find_next_eol-none :
    (m : Mem) (p n l : ℕ)
    → p ≤ l
    → l ≤ p + n
    → ((i : ℕ) → p ≤ i → i < l → m i ≢ b'\n')
    → m l ≡ 0
    → m (p + n) ≡ 0
    → find_next_eol m p n ≡ none
unfolding find_next_eol
find_next_eol-none m p n l lo hi h z e =
    let q = seek ends_line m p n in
    let bounds = seek_bounds ends_line m p n in
    let hit = seek_stops ends_line m p n (zero_ends (m (p + n)) e) in
    let found : m q ≡ 0 = elim (cases q l) [
      | inl (inl before) ↦ ends_zero (m q) (h q bounds.0 before) hit
      | inl (inr same) ↦ ap m same ∙ z
      | inr behind ↦
          absurd (true≢false (sym (zero_ends (m l) z) ∙ seek_before ends_line m p n l lo behind))
    ] in
    rw found refl
  where
    cases : (q l : ℕ) → ((q < l) ⊎ (q ≡ l)) ⊎ (l < q)
    cases q l = omega arith

-- The blanks in front of what is unread.
abbrev pub advance : Mem → Buf → Buf
advance m b = record b { pos = skip_space m b.pos (b.last - b.pos) }

skip_bounds : (m : Mem) (p n : ℕ) → (p ≤ skip_space m p n) × (skip_space m p n ≤ p + n)
unfolding skip_space
skip_bounds m p n = seek_bounds (λ c. not (isspace c)) m p n

pub advance-Waits : (m : Mem) (b : Buf) → Waits m b → Waits m (advance m b)
advance-Waits m b w =
    let bounds = skip_bounds m b.pos (b.last - b.pos) in
    (omega arith, w.1, λ i l h. w.2 i (omega arith) h, w.3)

-- There is no line's end behind the blanks either.
no_eol :
    (m : Mem) (b : Buf)
    → Waits m b
    → let p = skip_space m b.pos (b.last - b.pos) in find_next_eol m p (b.end - p) ≡ none
no_eol m b w =
    let p = skip_space m b.pos (b.last - b.pos) in
    let bounds = skip_bounds m b.pos (b.last - b.pos) in
    let last : p + (b.end - p) ≡ b.end = omega arith in
    find_next_eol-none m p (b.end - p) b.last (omega arith) (omega arith)
      (λ i l h. w.2 i (omega arith) h) (w.3 b.last (omega arith) w.1)
      (ap m last ∙ w.3 b.end w.1 (omega arith))

-- Without a line's end, nothing is done but skipping the blanks.
http_parse_request_line-Waits :
    (r : Request) (b : Buf)
    → Waits r.mem b
    → http_parse_request_line r b ≡ (parse_again, r, advance r.mem b)
unfolding http_parse_request_line
http_parse_request_line-Waits r b w = rw (no_eol r.mem b w, http_parse_request_line) refl

-- Blanks may be skipped beforehand.
http_parse_request_line_from :
    (r : Request) (b : Buf) (q : ℕ)
    → skip_space r.mem q (b.last - q) ≡ skip_space r.mem b.pos (b.last - b.pos)
    → http_parse_request_line r (record b { pos = q }) ≡ http_parse_request_line r b
unfolding http_parse_request_line
http_parse_request_line_from r b q e =
    let parse : ℕ → Code × Request × Buf = λ p. elim (find_next_eol r.mem p (b.end - p)) [
      | none ↦ (parse_again, r, record b { pos = p })
      | some eol ↦ request_tokens r (record b { pos = p }) p eol
    ] in
    ap parse e

-- A parser of a line that may be called again when more bytes have come: on a buffer without a line's
-- end it only skips blanks, and blanks that were skipped beforehand make no difference to it.
pub record IsResumable (parse : Parser) : Type 0 where
  pub waits :
      (r : Request) (b : Buf) → Waits r.mem b → parse r b ≡ (parse_again, r, advance r.mem b)
  pub resumes :
      (r : Request) (b : Buf) (q : ℕ)
      → skip_space r.mem q (b.last - q) ≡ skip_space r.mem b.pos (b.last - b.pos)
      → parse r (record b { pos = q }) ≡ parse r b

pub http_parse_request_line-IsResumable : IsResumable http_parse_request_line
http_parse_request_line-IsResumable = record {
  waits = http_parse_request_line-Waits;
  resumes = http_parse_request_line_from;
}

status_parser-Waits :
    (r : Request) (b : Buf) → Waits r.mem b → status_parser r b ≡ (parse_again, r, advance r.mem b)
unfolding status_parser http_parse_status_line
status_parser-Waits r b w = rw (no_eol r.mem b w, http_parse_status_line) refl

status_parser_from :
    (r : Request) (b : Buf) (q : ℕ)
    → skip_space r.mem q (b.last - q) ≡ skip_space r.mem b.pos (b.last - b.pos)
    → status_parser r (record b { pos = q }) ≡ status_parser r b
unfolding status_parser http_parse_status_line
status_parser_from r b q e =
    let parse : ℕ → Code × Mem × Buf × ℤ = λ p. elim (find_next_eol r.mem p (b.end - p)) [
      | none ↦ (parse_again, r.mem, record b { pos = p }, pos r.status)
      | some eol ↦ status_tokens r.mem (record b { pos = p }) p eol (pos r.status)
    ] in
    ap
      (λ ((code, m, b', status) : Code × Mem × Buf × ℤ).
        (code, record r { mem = m; status = pos_part status }, b'))
      (ap parse e)

pub status_parser-IsResumable : IsResumable status_parser
status_parser-IsResumable = record { waits = status_parser-Waits; resumes = status_parser_from }
