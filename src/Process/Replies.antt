-- ===== src/Process/Replies.antt =====
-- What the receiving loops answer.
use xwp_server.Base.{
  ◌≡◌, refl, ◌⊎◌, inl, inr, Bool, true, false, List, [], ◌∷◌, ◌==◌, Bool-cases, Option-cases,
}
use xwp_server.CLib.{Bytes}
use xwp_server.Parse.Url.{Code, parse_done, parse_fail, parse_again}
use xwp_server.Process.{
  Recv, interrupted, failed, received, Reply, returned, Parser, grow_or_fail, after_parse,
  line_round, after_recv, line_wait, line_loop, room_for, http_process_request_line,
  http_process_status_line, status_parser,
}
use xwp_server.Parse.RequestLine.{http_parse_request_line}
use xwp_server.Request.{Buf, Request, stat_request_line, stat_status_line}
use xwp_server.Request.Buffer.{http_alloc_client_header_buf, http_alloc_large_client_header_buf}

-- A result 0 comes with status 400, 444 or 500.
abbrev pub Explained : Reply × Request → Type 0
Explained (returned false, r) = (r.status ≡ 400) ⊎ ((r.status ≡ 444) ⊎ (r.status ≡ 500))
Explained _ = Unit {0}

module _ (go_on : Bool → Request → Buf → Reply × Request)
    (rest : (g : Bool) (r : Request) (b : Buf) → Explained (go_on g r b)) where
  grow_or_fail-Explained :
      (grown : Bool) (r : Request) (b : Buf) → Explained (grow_or_fail grown r b go_on)
  unfolding grow_or_fail
  grow_or_fail-Explained grown r b = elim (Option-cases (http_alloc_large_client_header_buf r b)) [
    | inl e ↦ rw (e, grow_or_fail) (inr (inr refl))
    | inr ((r', b'), e) ↦ rw (e, grow_or_fail) (rest true r' b')
  ]

  after_parse-Explained :
      (code : Code) (grown : Bool) (r : Request) (b : Buf)
      → Explained (after_parse code grown r b go_on)
  unfolding after_parse
  after_parse-Explained parse_done grown r b = tt
  after_parse-Explained parse_fail grown r b = inl refl
  after_parse-Explained parse_again grown r b = elim (Bool-cases (b.last == b.end)) [
    | inl full ↦ rw full (grow_or_fail-Explained grown r b)
    | inr space ↦ rw space (rest grown r b)
  ]

  line_round-Explained :
      (parse : Parser) (grown : Bool) (r : Request) (b : Buf)
      → Explained (line_round parse grown r b go_on)
  unfolding line_round
  line_round-Explained parse grown r b =
      after_parse-Explained (parse r b).0 grown (parse r b).1 (parse r b).2

  after_recv-Explained :
      (parse : Parser) (grown : Bool) (r : Request) (b : Buf) (bytes : Bytes)
      → Explained (after_recv parse grown r b go_on bytes)
  unfolding after_recv
  after_recv-Explained parse grown r b [] = inr (inl refl)
  after_recv-Explained parse grown r b (c ∷ cs) = line_round-Explained parse grown _ _

line_wait-Explained :
    (parse : Parser) (events : List Recv) (grown : Bool) (r : Request) (b : Buf)
    → Explained (line_wait parse events grown r b)
unfolding line_wait
line_wait-Explained parse [] grown r b = tt
line_wait-Explained parse (interrupted ∷ events) grown r b =
    line_wait-Explained parse events grown r b
line_wait-Explained parse (failed ∷ events) grown r b = inr (inl refl)
line_wait-Explained parse (received bytes ∷ events) grown r b =
    after_recv-Explained _ (line_wait-Explained parse events) parse grown r b (room_for b bytes)

pub line_loop-Explained :
    (parse : Parser) (events : List Recv) (r : Request) → Explained (line_loop parse events r)
unfolding line_loop
line_loop-Explained parse events r =
    line_round-Explained _ (line_wait-Explained parse events) parse false r r.header_buf

-- Whatever the peer sends, reading a request line or a status line that returns 0 has set the status
-- to 400 (it cannot be parsed), 444 (the connection is closed) or 500 (there is no larger buffer).
pub process_line-Explained :
    (events : List Recv) (r : Request)
    → Explained (http_process_request_line r events) × Explained (http_process_status_line r events)
unfolding http_process_request_line http_process_status_line
process_line-Explained events r = (
  line_loop-Explained http_parse_request_line events
      (record (http_alloc_client_header_buf r) { state = stat_request_line }),
  line_loop-Explained status_parser events
      (record (http_alloc_client_header_buf r) { state = stat_status_line }),
)
