-- ===== src/Parse/Url.antt =====
-- `http_parse_url` of src/http_request.c.
pub mod Origin
pub mod Bounds
pub mod Writes
use xwp_server.Base.{
  ℕ, zero, suc, ◌+◌, ◌-◌, Bool, true, false, ◌||◌, Option, none, some, ◌==◌, if◌then◌else◌,
}
use xwp_server.CLib.{Bytes, isspace, isdigit, is_character, digits_value}
use xwp_server.Memory.{Mem, write, slice, Slice}

-- `HTTP_PARSE_DONE`, `HTTP_PARSE_FAIL`, `HTTP_PARSE_AGAIN`
pub data Code : Type 0 where
  parse_done parse_fail parse_again : Code

pub data UrlState : Type 0 where
  stat_start stat_schema stat_schema_slash stat_host stat_port stat_path : UrlState
  stat_query_string stat_done : UrlState

-- The local variables of the walk; `none` is NULL.
pub record Marks : Type 0 where
  pub state : UrlState
  pub schema_start : Option ℕ
  pub schema_end : Option ℕ
  pub host_start : Option ℕ
  pub host_end : Option ℕ
  pub port_start : Option ℕ
  pub port_end : Option ℕ
  pub path_start : Option ℕ
  pub path_end : Option ℕ
  pub query_start : Option ℕ
  pub query_end : Option ℕ

-- One turn of the `switch` at the byte `c` of address `p`; `none` is HTTP_PARSE_FAIL. No turn is
-- made in `stat_done`, where the source asserts.
unfoldable pub url_step : UrlState → Marks → ℕ → ℕ → Option Marks
unfolding isspace isdigit is_character
url_step stat_start s p c =
    if isspace c
    then some s
    else if is_character c
    then some (record s { schema_start = some p; state = stat_schema })
    else if c == b'/'
    then some (record s { path_start = some p; state = stat_path })
    else none
url_step stat_schema s p c =
    if is_character c
    then some s
    else if c == b':'
    then some (record s { schema_end = some p; state = stat_schema_slash })
    else none
url_step stat_schema_slash s p c =
    if c == b'/'
    then some s
    else if is_character c
    then some (record s { host_start = some p; state = stat_host })
    else none
url_step stat_host s p c =
    if is_character c
    then some s
    else if isdigit c || c == b'.' || c == b'-'
    then some s
    else if c == b':'
    then some (record s { host_end = some p; port_start = some (p + 1); state = stat_port })
    else if c == b'/'
    then some (record s { host_end = some p; path_start = some p; state = stat_path })
    else none
url_step stat_port s p c =
    if isdigit c
    then some s
    else if c == b'/'
    then some (record s { port_end = some p; path_start = some p; state = stat_path })
    else if isspace c
    then some (record s { port_end = some p; state = stat_done })
    else none
url_step stat_path s p c =
    if c == b'?'
    then some
        (record s { path_end = some p; query_start = some (p + 1); state = stat_query_string })
    else if c == b'#'
    then some (record s { path_end = some p; state = stat_done })
    else if isspace c
    then some (record s { path_end = some p; state = stat_done })
    else some s
url_step stat_query_string s p c =
    if c == b'#' || isspace c
    then some (record s { query_end = some p; state = stat_done })
    else some s
url_step stat_done s p c = none

abbrev pub is_done : UrlState → Bool
is_done stat_done = true
is_done _ = false

-- `for(; p < url_str_end && *p != '\0'; p++)`, `n` bytes before `url_str_end`.
unfoldable pub url_loop : Mem → Marks → ℕ → ℕ → Option Marks
url_loop m s p zero = some s
url_loop m s p (suc n) =
    let turn : Option Marks = elim (url_step s.state s p (m p)) [
      | none ↦ none
      | some t ↦ let rest = url_loop m t (p + 1) n in if is_done t.state then some t else rest
    ] in
    if m p == 0 then some s else turn

abbrev pub no_marks : Marks
no_marks = record {
  state = stat_start;
  schema_start = none;
  schema_end = none;
  host_start = none;
  host_end = none;
  port_start = none;
  port_end = none;
  path_start = none;
  path_end = none;
  query_start = none;
  query_end = none;
}

-- `url_t`. `unparsed_url` and `host` are copies; the others point into the request's buffer.
pub record Url : Type 0 where
  pub unparsed_url : Option Bytes
  pub schema : Option Slice
  pub host : Option Bytes
  pub port : ℕ
  pub path : Option Slice
  pub query_string : Option Slice

abbrev pub Outcome : Type 0
Outcome = Code × Mem × Url

-- The blocks behind the loop, each with what follows it as `go_on`; a missing end is a failure, or
-- the end of the text.
unfoldable pub set_schema : Marks → Mem → Url → (Mem → Url → Outcome) → Outcome
set_schema s m u go_on = elim s.schema_start [
  | none ↦ go_on m u
  | some a ↦ elim s.schema_end [
    | none ↦ (parse_fail, m, u)
    | some b ↦ go_on (write m b 0) (record u { schema = some (record { at = a; len = b - a }) })
  ]
]

unfoldable pub set_host : Marks → Mem → Url → (Mem → Url → Outcome) → Outcome
set_host s m u go_on = elim s.host_start [
  | none ↦ go_on m u
  | some a ↦ elim s.host_end [
    | none ↦ (parse_fail, m, u)
    | some b ↦ go_on m (record u { host = some (slice m a (b - a)) })
  ]
]

-- Between `port_start` and `port_end` there are digits alone, which `strtod` reads as their value
-- (a value beyond an `int` is undefined in the source, and kept here).
unfoldable pub set_port : Marks → Mem → Url → (Mem → Url → Outcome) → Outcome
set_port s m u go_on = elim s.port_start [
  | none ↦ go_on m (record u { port = 80 })
  | some a ↦ elim s.port_end [
    | none ↦ (parse_fail, m, u)
    | some b ↦ go_on m (record u { port = digits_value 0 (slice m a (b - a)) })
  ]
]

abbrev pub end_or : Option ℕ → ℕ → ℕ
end_or none e = e
end_or (some a) e = a

unfoldable pub set_path : Marks → ℕ → Mem → Url → (Mem → Url → Outcome) → Outcome
set_path s end m u go_on = elim s.path_start [
  | none ↦ go_on m u
  | some a ↦
      go_on (write m (end_or s.path_end end) 0)
        (record u { path = some (record { at = a; len = end_or s.path_end end - a }) })
]

unfoldable pub set_query_string : Marks → ℕ → Mem → Url → (Mem → Url → Outcome) → Outcome
set_query_string s end m u go_on = elim s.query_start [
  | none ↦ go_on m u
  | some a ↦
      go_on (write m (end_or s.query_end end) 0)
        (record u { query_string = some (record { at = a; len = end_or s.query_end end - a }) })
]

unfoldable pub finish_url : Marks → ℕ → Mem → Url → Outcome
unfolding set_schema set_host set_port set_path set_query_string
finish_url s end m u = set_schema s m u λ m u. set_host s m u λ m u.
    set_port s m u
      λ m u. set_path s end m u λ m u. set_query_string s end m u λ m u. (parse_done, m, u)

unfoldable pub http_parse_url : Mem → Url → Slice → Outcome
unfolding finish_url
http_parse_url m u text =
    let u' = record u { unparsed_url = some (slice m text.at text.len) } in
    elim (url_loop m no_marks text.at text.len) [
      | none ↦ (parse_fail, m, u')
      | some s ↦ finish_url s (text.at + text.len) m u'
    ]
