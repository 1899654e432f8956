-- ===== src/Parse/HeaderLine/Rounds.antt =====
-- The loop over the header lines ends by itself.
use xwp_server.Base.{
  ℕ, zero, suc, ◌+◌, ◌-◌, ◌≤◌, ◌<◌, ◌≡◌, refl, subst, false, some, ◌==◌, ltb, arith, Bool-cases,
  Option-cases, inl, inr, ◌⊎◌,
}
use xwp_server.CLib.{Bytes}
use xwp_server.Memory.Walk.{seek_bounds}
use xwp_server.Memory.{Mem, write, slice}
use xwp_server.Parse.HeaderLine.{
  Lines, Round, stop, next, read_value, read_name, is_colon, is_empty_line, read_line, header_round,
  trimmed, header_loop,
}
use xwp_server.Parse.Token.{find_next_eol, get_token, Token, ends_line}
use xwp_server.Parse.RequestLine.{skip_space}
use xwp_server.Parse.Url.{Code, parse_again}

find_next_eol-le : (m : Mem) (p n eol : ℕ) → find_next_eol m p n ≡ some eol → p ≤ eol
unfolding find_next_eol
find_next_eol-le m p n eol e = ground (arith, seek_bounds ends_line m p n)

-- A round that goes on continues behind this line's end.
abbrev pub Behind : ℕ → Round → Type 0
Behind eol (stop code l) = Unit {0}
Behind eol (next l) = l.pos ≡ eol + 1

read_value-Behind :
    (end eol : ℕ) (name : Bytes) (l : Lines) → Behind eol (read_value end eol name l)
unfolding read_value
read_value-Behind end eol name l = elim (Bool-cases (l.mem l.pos == 0)) [
  | inl nul ↦ rw nul tt
  | inr some_byte ↦ elim (Bool-cases (l.pos == eol)) [
    | inl empty ↦ rw (some_byte, empty) refl
    | inr full ↦ rw (some_byte, full) refl
  ]
]

read_name-Behind : (end eol : ℕ) (t : Token) (l : Lines) → Behind eol (read_name end eol t l)
unfolding read_name
read_name-Behind end eol t l =
    let len = trimmed t.mem t.token.at t.token.len in
    let m = write t.mem (t.token.at + len) 0 in
    read_value-Behind end eol (slice m t.token.at len)
      (record l { mem = m; pos = skip_space m t.rest (eol - t.rest) })

read_line-Behind : (end eol : ℕ) (l : Lines) → Behind eol (read_line end eol l)
unfolding read_line
read_line-Behind end eol l = elim (Bool-cases (l.mem l.pos == 0)) [
  | inl nul ↦ rw nul tt
  | inr some_byte ↦ elim (Bool-cases (l.pos == eol)) [
    | inl empty ↦ rw (some_byte, empty) refl
    | inr full ↦ elim (Option-cases (get_token is_colon l.mem l.pos (end - l.pos))) [
      | inl e ↦ rw (some_byte, full, e, read_line) tt
      | inr (t, e) ↦ rw (some_byte, full, e, read_line) (read_name-Behind end eol t l)
    ]
  ]
]

-- A round that goes on has moved on.
abbrev pub Later : ℕ → Round → Type 0
Later p (stop code l) = Unit {0}
Later p (next l) = p < l.pos

later : (p eol : ℕ) (t : Round) → p ≤ eol → Behind eol t → Later p t
later p eol (stop code l) h b = tt
later p eol (next l) h b = omega arith

header_round-Later : (end : ℕ) (l : Lines) → Later l.pos (header_round end l)
unfolding header_round
header_round-Later end l = elim (Option-cases (find_next_eol l.mem l.pos (end - l.pos))) [
  | inl e ↦ rw (e, header_round) tt
  | inr (eol, e) ↦ elim (Bool-cases (is_empty_line l.mem l.pos eol)) [
    | inl empty ↦ rw (e, header_round, empty) tt
    | inr full ↦
        rw (e, header_round, full)
          (later l.pos eol _ (find_next_eol-le l.mem l.pos (end - l.pos) eol e)
            (read_line-Behind end eol (record l { pos = skip_space l.mem l.pos (eol - l.pos) })))
  ]
]

Round-cases :
    (t : Round) → ((code : Code) × (l : Lines) × (t ≡ stop code l)) ⊎ ((l : Lines) × (t ≡ next l))
Round-cases (stop code l) = inl (code, l, refl)
Round-cases (next l) = inr (l, refl)

header_loop_done :
    (fuel last end : ℕ) (l : Lines) → last ≤ l.pos → header_loop fuel last end l ≡ (parse_again, l)
unfolding header_loop
header_loop_done zero last end l h = refl
header_loop_done (suc fuel) last end l h =
    let stops : ltb l.pos last ≡ false = ground arith in rw stops

-- More rounds than there are bytes before `last` change nothing: the loop has ended by a `break` or by
-- its own test, and the limit on rounds that `http_parse_header_line` sets is never what ends it.
pub header_loop_enough :
    (fuel more last end : ℕ) (l : Lines)
    → last ≤ l.pos + fuel
    → header_loop (fuel + more) last end l ≡ header_loop fuel last end l
unfolding header_loop
header_loop_enough zero more last end l h = header_loop_done (zero + more) last end l (omega arith)
header_loop_enough (suc fuel) more last end l h =
    let e : suc fuel + more ≡ suc (fuel + more) = omega arith in
    rw e (elim (Bool-cases (ltb l.pos last)) [
      | inl goes ↦ elim (Round-cases (header_round end l)) [
        | inl (code, l', turn) ↦ rw (goes, turn, header_loop) refl
        | inr (l', turn) ↦
            let on : Later l.pos (next l') = subst (Later l.pos) turn (header_round-Later end l) in
            rw (goes, turn, header_loop) (header_loop_enough fuel more last end l' (omega arith))
      ]
      | inr stops ↦ rw stops refl
    ])
