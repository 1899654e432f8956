-- ===== src/Parse/Token.antt =====
-- `get_token` of src/utils.c and `find_next_eol` of src/http_request.c.
pub mod Laws
use xwp_server.Base.{ℕ, ◌+◌, ◌-◌, Bool, not, ◌||◌, Option, none, some, ◌==◌, if◌then◌else◌}
use xwp_server.Memory.{Mem, write, seek, Slice}

-- `find_next_eol(p)`, `n` bytes before the buffer's end: `none` is NULL.
abbrev pub ends_line : ℕ → Bool
ends_line c = c == b'\n' || c == 0

unfoldable pub find_next_eol : Mem → ℕ → ℕ → Option ℕ
find_next_eol m p n = let q = seek ends_line m p n in if m q == 0 then none else some q

-- `*p == '\0' || !IS_DELIM(...)`, where the walk over the delimiters ends
abbrev pub starts_token : (ℕ → Bool) → ℕ → Bool
starts_token delim c = c == 0 || not (delim c)

-- `*p == '\0' || IS_DELIM(...)`, where the walk over the token ends
abbrev pub ends_token : (ℕ → Bool) → ℕ → Bool
ends_token delim c = c == 0 || delim c

-- What `get_token` leaves when it returns 1: the token, the memory with a NUL behind it, and `*buf`.
pub record Token : Type 0 where
  pub token : Slice
  pub mem : Mem
  pub rest : ℕ

-- `get_token(&str, &p, ...)`, `n` bytes before the buffer's end. `delim` is `IS_DELIM` for a byte
-- that is not NUL; `none` is the result 0, where nothing is written.
unfoldable pub get_token : (ℕ → Bool) → Mem → ℕ → ℕ → Option Token
get_token delim m p n =
    let first = seek (starts_token delim) m p n in
    let behind = seek (ends_token delim) m (first + 1) (p + n - (first + 1)) in
    if m first == 0
    then none
    else some (record {
      token = record { at = first; len = behind - first };
      mem = write m behind 0;
      rest = behind + 1;
    })
