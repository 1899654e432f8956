-- ===== src/Parse/StatusLine.antt =====
-- `http_parse_status_line` of src/http_request.c.
use xwp_server.Base.{ℕ, ◌+◌, ◌-◌, Bool, ◌||◌, none, some, if◌then◌else◌, ℤ, pos, ltb_ℤ}
use xwp_server.CLib.{isspace, atoi}
use xwp_server.Memory.{Mem, slice}
use xwp_server.Parse.RequestLine.{skip_space}
use xwp_server.Parse.Token.{find_next_eol, get_token}
use xwp_server.Parse.Url.{Code, parse_done, parse_fail, parse_again}
use xwp_server.Request.{Buf}

-- `*status < HTTP_STATUS_START || *status > HTTP_STATUS_END`
abbrev pub out_of_status : ℤ → Bool
out_of_status s = ltb_ℤ s (pos 100) || ltb_ℤ (pos 599) s

-- The two calls of `get_token` from `p` on. The second token is the status, which is stored also if it is
-- refused.
unfoldable pub status_tokens : Mem → Buf → ℕ → ℕ → ℤ → Code × Mem × Buf × ℤ
status_tokens m b p eol old = elim (get_token isspace m p (b.end - p)) [
  | none ↦ (parse_fail, m, b, old)
  | some t1 ↦ elim (get_token isspace t1.mem t1.rest (b.end - t1.rest)) [
    | none ↦ (parse_fail, t1.mem, b, old)
    | some t2 ↦
        let status = atoi (slice t2.mem t2.token.at t2.token.len) in
        (
          if out_of_status status then parse_fail else parse_done,
          t2.mem,
          record b { pos = eol + 1 },
          status,
        )
  ]
]

unfoldable pub http_parse_status_line : Mem → Buf → ℤ → Code × Mem × Buf × ℤ
unfolding status_tokens
http_parse_status_line m b old =
    let p = skip_space m b.pos (b.last - b.pos) in
    elim (find_next_eol m p (b.end - p)) [
      | none ↦ (parse_again, m, record b { pos = p }, old)
      | some eol ↦ status_tokens m (record b { pos = p }) p eol old
    ]
