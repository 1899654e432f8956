-- ===== src/Parse/HeaderLine.antt =====
-- `http_parse_header_line` of src/http_request.c.
pub mod Reads
pub mod Rounds
pub mod Block
use xwp_server.Base.{
  ℕ, zero, suc, ◌+◌, ◌-◌, ◌%◌, ◌^◌, Bool, ◌&&◌, ◌||◌, List, none, some, ◌==◌, ltb, if◌then◌else◌,
}
use xwp_server.CLib.{Bytes, isspace}
use xwp_server.Http.Headers.{Str, no_str, Header, http_header_set}
use xwp_server.Memory.{Mem, write, slice, c_string}
use xwp_server.Parse.RequestLine.{skip_space}
use xwp_server.Parse.Token.{find_next_eol, Token, get_token}
use xwp_server.Parse.Url.{Code, parse_done, parse_fail, parse_again}
use xwp_server.Request.{Buf}

-- `for(i=name.len-1; i>=0; i--) if(!isspace(name.data[i])) break;`: the length `i + 1` that is left.
unfoldable pub trimmed : Mem → ℕ → ℕ → ℕ
unfolding isspace
trimmed m at zero = zero
trimmed m at (suc i) =
    let shorter = trimmed m at i in if isspace (m (at + i)) then shorter else suc i

-- The variables of the loop, and of the array.
pub record Lines : Type 0 where
  pub mem : Mem
  pub pos : ℕ
  pub headers : List Header

-- What a round of the loop does: `break` with a code, or the next round.
pub data Round : Type 0 where
  stop : Code → Lines → Round
  next : Lines → Round

-- `size_t` differences wrap around.
abbrev pub size_t_sub : ℕ → ℕ → ℕ
size_t_sub a b = (a + 2 ^ 64 - b) % 2 ^ 64

-- The value's end: at a `\r` before the line's end, or at the line's end.
unfoldable pub value_end : Mem → ℕ → ℕ
value_end m eol = if m (eol - 1) == b'\r' then eol - 1 else eol

-- From the value's first byte on. The strings are read where they are stored.
unfoldable pub read_value : ℕ → ℕ → Bytes → Lines → Round
unfolding value_end
read_value end eol name l =
    let stopped = write l.mem (value_end l.mem eol) 0 in
    let text = c_string stopped l.pos (end + 1 - l.pos) in
    let given : Str = record { text = some text; len = size_t_sub (value_end l.mem eol) l.pos } in
    if l.mem l.pos == 0
    then stop parse_fail l
    else if l.pos == eol
    then next (record l { pos = eol + 1; headers = http_header_set l.headers name no_str })
    else next
        (record { mem = stopped; pos = eol + 1; headers = http_header_set l.headers name given })

-- Behind the token before the colon, whose end is trimmed.
unfoldable pub read_name : ℕ → ℕ → Token → Lines → Round
unfolding trimmed read_value
read_name end eol t l =
    let len = trimmed t.mem t.token.at t.token.len in
    let m = write t.mem (t.token.at + len) 0 in
    read_value end eol (slice m t.token.at len)
      (record l { mem = m; pos = skip_space m t.rest (eol - t.rest) })

unfoldable pub is_colon : ℕ → Bool
is_colon c = c == b':'

-- `eol==pos || (eol==pos+1 && *pos=='\r' && *eol=='\n')`
unfoldable pub is_empty_line : Mem → ℕ → ℕ → Bool
is_empty_line m p eol = eol == p || (eol == p + 1 && m p == b'\r' && m eol == b'\n')

-- A line that is not empty, from its first byte that is no space.
unfoldable pub read_line : ℕ → ℕ → Lines → Round
read_line end eol l =
    if l.mem l.pos == 0
    then stop parse_fail l
    else if l.pos == eol
    then next (record l { pos = eol + 1 })
    else elim (get_token is_colon l.mem l.pos (end - l.pos)) [
      | none ↦ stop parse_fail l
      | some t ↦ read_name end eol t l
    ]

-- One round of `while(pos < last)`.
unfoldable pub header_round : ℕ → Lines → Round
header_round end l = elim (find_next_eol l.mem l.pos (end - l.pos)) [
  | none ↦ stop parse_again l
  | some eol ↦
      if is_empty_line l.mem l.pos eol
      then stop parse_done (record l { pos = eol + 1 })
      else read_line end eol (record l { pos = skip_space l.mem l.pos (eol - l.pos) })
]

-- The loop. A round that goes on has moved `pos` behind a line's end, so there are fewer rounds than
-- bytes before `last`.
unfoldable pub header_loop : ℕ → ℕ → ℕ → Lines → Code × Lines
header_loop zero last end l = (parse_again, l)
header_loop (suc fuel) last end l =
    let turn : Code × Lines = elim (header_round end l) [
      | stop code l' ↦ (code, l')
      | next l' ↦ header_loop fuel last end l'
    ] in
    if ltb l.pos last then turn else (parse_again, l)

unfoldable pub http_parse_header_line : Mem → Buf → List Header → Code × Mem × Buf × List Header
unfolding header_loop
http_parse_header_line m b headers =
    let (code, l) =
      header_loop (b.last - b.pos) b.last b.end
        (record { mem = m; pos = b.pos; headers = headers }) in
    (code, l.mem, record b { pos = l.pos }, l.headers)
