-- ===== src/Process/Pieces/Line.antt =====
-- `http_process_request_line` and `http_process_status_line`, and the pieces in which a line arrives.
use xwp_server.Base.{
  ℕ, ◌+◌, ◌^◌, ◌≤◌, ◌<◌, ◌≡◌, refl, sym, ap, ◌∙◌, Bool, false, List, [], ◌∷◌, ◌++◌, length,
  length-append, arith, map, subst,
}
use mathlib.Core.List.{append_assoc}
use xwp_server.CLib.{Bytes}
use xwp_server.Memory.Pieces.{IsFreeOf}
use xwp_server.Memory.{write, write_all}
use xwp_server.Parse.RequestLine.{http_parse_request_line}
use xwp_server.Process.Pieces.Joined.{
  with_received, behind, receive-Waits, line_round_again, wait_step, wait_join,
}
use xwp_server.Process.Pieces.{
  Waits, advance, advance-Waits, IsResumable, http_parse_request_line-IsResumable,
  status_parser-IsResumable,
}
use xwp_server.Process.{
  Parser, status_parser, http_process_status_line, Recv, interrupted, failed, received, receive,
  line_wait, line_loop, http_process_request_line,
}
use xwp_server.Request.Buffer.{clear, buf_create, http_alloc_client_header_buf}
use xwp_server.Request.{Buf, Request, State, stat_request_line, stat_status_line}

-- The bytes of the pieces, one after the other.
abbrev pub text_of : List Recv → Bytes
text_of [] = []
text_of (interrupted ∷ events) = text_of events
text_of (failed ∷ events) = text_of events
text_of (received c ∷ events) = c ++ text_of events

-- Pieces and interruptions, neither the stream's end nor an error nor a line's end among them.
abbrev pub IsQuiet : List Recv → Type 0
IsQuiet [] = Unit {0}
IsQuiet (interrupted ∷ events) = IsQuiet events
IsQuiet (failed ∷ events) = ⊥
IsQuiet (received [] ∷ events) = ⊥
IsQuiet (received (x ∷ c) ∷ events) = IsFreeOf b'\n' (x ∷ c) × IsQuiet events

module _ (parse : Parser) (parser : IsResumable parse) where
  join_any :
      (ev : List Recv) (grown : Bool) (r : Request) (b : Buf) (x : ℕ) (c d : Bytes)
      → Waits r.mem b
      → b.end < 2 ^ 64
      → IsFreeOf b'\n' (x ∷ c)
      → 0 < length d
      → b.last + length ((x ∷ c) ++ d) ≤ b.end
      → line_wait parse (received (x ∷ c) ∷ received d ∷ ev) grown r b
        ≡ line_wait parse (received ((x ∷ c) ++ d) ∷ ev) grown r b
  join_any ev grown r b x c [] w k f n h = absurd (omega arith)
  join_any ev grown r b x c (y ∷ d) w k f n h = wait_join parse parser ev grown r b x y c d w k f h

  -- All pieces in front of `d` are as good as one with it.
  wait_pieces :
      (early ev : List Recv) (grown : Bool) (r : Request) (b : Buf) (d : Bytes)
      → IsQuiet early
      → Waits r.mem b
      → b.end < 2 ^ 64
      → 0 < length d
      → b.last + length (text_of early ++ d) ≤ b.end
      → line_wait parse (early ++ received d ∷ ev) grown r b
        ≡ line_wait parse (received (text_of early ++ d) ∷ ev) grown r b
  unfolding line_wait receive
  wait_pieces [] ev grown r b d q w k n h = refl
  wait_pieces (interrupted ∷ early) ev grown r b d q w k n h =
      wait_pieces early ev grown r b d q w k n h
  wait_pieces (failed ∷ early) ev grown r b d q w k n h = absurd q
  wait_pieces (received [] ∷ early) ev grown r b d q w k n h = absurd q
  wait_pieces (received (x ∷ c) ∷ early) ev grown r b d q w k n h =
      let rest = text_of early ++ d in
      let apart = append_assoc (x ∷ c) (text_of early) d in
      let same = ap length apart in
      let total = length-append (x ∷ c) (text_of early ++ d) in
      let more : length rest ≡ length (text_of early) + length d =
        length-append (text_of early) d in
      let stored = write_all r.mem b.last (x ∷ c) in
      let filled : Waits stored (behind b (x ∷ c)) =
        receive-Waits r b (x ∷ c) w q.0 (omega arith) in
      let step =
        λ (ev : List Recv). wait_step parse parser ev grown r b x c w k q.0 (omega arith) in
      step (early ++ received d ∷ ev)
      ∙ wait_pieces early ev grown (with_received r b (x ∷ c)) (advance stored (behind b (x ∷ c))) d
          q.1 (advance-Waits stored (behind b (x ∷ c)) filled) k n (omega arith)
      ∙ sym (step (received rest ∷ ev))
      ∙ join_any ev grown r b x c rest w k q.0 (omega arith) (omega arith)
      ∙ ap (λ t. line_wait parse (received t ∷ ev) grown r b) (sym apart)

-- The first header buffer is empty, with zeros up to its end.
alloc-Waits : (r : Request) → let r' = http_alloc_client_header_buf r in Waits r'.mem r'.header_buf
unfolding http_alloc_client_header_buf buf_create clear write
alloc-Waits r = (omega arith, omega arith, λ i l h. absurd (omega arith), λ i l h. ground arith)

-- The loop begins by waiting.
module _ (parse : Parser) (parser : IsResumable parse) (state : State) (r : Request)
    (fits : 0 < r.conf.client_header_size) where
  abbrev pub started : Request
  started = record (http_alloc_client_header_buf r) { state = state }

  pub enters :
      (ev : List Recv)
      → line_loop parse ev started
        ≡ line_wait parse ev false started (advance started.mem started.header_buf)
  unfolding line_loop http_alloc_client_header_buf buf_create
  enters ev =
      line_round_again parse parser false started started.header_buf _ (alloc-Waits r) (omega arith)

-- All pieces of a line are as good as one, for each of the two parsers.
line_loop-pieces :
    (parse : Parser) (parser : IsResumable parse) (state : State) (r : Request)
    (early ev : List Recv) (d : Bytes)
    → IsQuiet early
    → 0 < length d
    → length (text_of early ++ d) ≤ r.conf.client_header_size
    → r.free + r.conf.client_header_size < 2 ^ 64
    → let start : Request = record (http_alloc_client_header_buf r) { state = state } in
      line_loop parse (early ++ received d ∷ ev) start
      ≡ line_loop parse (received (text_of early ++ d) ∷ ev) start
unfolding http_alloc_client_header_buf buf_create
line_loop-pieces parse parser state r early ev d q n h k =
    let total = length-append (text_of early) d in
    let fits : 0 < r.conf.client_header_size = omega arith in
    let s = started parse parser state r fits in
    enters parse parser state r fits (early ++ received d ∷ ev)
    ∙ wait_pieces parse parser early ev false s (advance s.mem s.header_buf) d q
        (advance-Waits s.mem s.header_buf (alloc-Waits r)) (omega arith) n (omega arith)
    ∙ sym (enters parse parser state r fits (received (text_of early ++ d) ∷ ev))

-- Pieces and interruptions in front of a last piece are as good as one piece, with the same results of
-- `recv` and the same `errno` afterwards.
pub process_line_quiet :
    (r : Request) (early ev : List Recv) (d : Bytes)
    → IsQuiet early
    → 0 < length d
    → length (text_of early ++ d) ≤ r.conf.client_header_size
    → r.free + r.conf.client_header_size < 2 ^ 64
    → (http_process_request_line r (early ++ received d ∷ ev)
        ≡ http_process_request_line r (received (text_of early ++ d) ∷ ev))
      × (http_process_status_line r (early ++ received d ∷ ev)
          ≡ http_process_status_line r (received (text_of early ++ d) ∷ ev))
unfolding http_process_request_line http_process_status_line
process_line_quiet r early ev d q n h k = (
  line_loop-pieces http_parse_request_line http_parse_request_line-IsResumable stat_request_line r
      early ev d q n h k,
  line_loop-pieces status_parser status_parser-IsResumable stat_status_line r early ev d q n h k,
)

-- Pieces that are not empty and hold no line feed.
abbrev pub AreParts : List Bytes → Type 0
AreParts [] = Unit {0}
AreParts (c ∷ pieces) = (0 < length c) × IsFreeOf b'\n' c × AreParts pieces

abbrev pub joined : List Bytes → Bytes
joined [] = []
joined (c ∷ pieces) = c ++ joined pieces

AreParts-IsQuiet : (pieces : List Bytes) → AreParts pieces → IsQuiet (map received pieces)
AreParts-IsQuiet [] h = tt
AreParts-IsQuiet ([] ∷ pieces) h = absurd (omega (arith, h.0))
AreParts-IsQuiet ((x ∷ c) ∷ pieces) h = (h.1, AreParts-IsQuiet pieces h.2)

text_of-map : (pieces : List Bytes) → text_of (map received pieces) ≡ joined pieces
text_of-map [] = refl
text_of-map (c ∷ pieces) = ap (λ t. c ++ t) (text_of-map pieces)

-- Bytes arrive in pieces that are not empty, of which none but the last holds a line feed. If they
-- fit into the header buffer, and its addresses are below 2 ^ 64, `http_process_request_line` does
-- what it does when they arrive together, in its result and in the whole request, whatever results
-- `recv` has afterwards. So does `http_process_status_line`.
pub process_line-pieces :
    (r : Request) (pieces : List Bytes) (ev : List Recv) (d : Bytes)
    → AreParts pieces
    → 0 < length d
    → length (joined pieces ++ d) ≤ r.conf.client_header_size
    → r.free + r.conf.client_header_size < 2 ^ 64
    → (http_process_request_line r (map received pieces ++ received d ∷ ev)
        ≡ http_process_request_line r (received (joined pieces ++ d) ∷ ev))
      × (http_process_status_line r (map received pieces ++ received d ∷ ev)
          ≡ http_process_status_line r (received (joined pieces ++ d) ∷ ev))
process_line-pieces r pieces ev d q n h k =
    let early = map received pieces in
    let same : text_of early ≡ joined pieces = text_of-map pieces in
    let size = ap (λ t. length (t ++ d)) same in
    subst
      (λ t.
        (http_process_request_line r (early ++ received d ∷ ev)
          ≡ http_process_request_line r (received (t ++ d) ∷ ev))
        × (http_process_status_line r (early ++ received d ∷ ev)
            ≡ http_process_status_line r (received (t ++ d) ∷ ev)))
      same (process_line_quiet r early ev d (AreParts-IsQuiet pieces q) n (omega arith) k)
