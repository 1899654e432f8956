-- ===== src/Process/Pieces/Served.antt =====
-- The request line of a client, from its pieces to the fields of the request.
use xwp_server.Base.{
  ℕ, ◌+◌, ◌-◌, ◌^◌, ◌≤◌, ◌<◌, ◌≡◌, refl, sym, ap, ◌∙◌, true, false, List, [], ◌∷◌, ◌++◌, length,
  length-append, arith, some, Option, none, subst,
}
use xwp_server.CLib.{Bytes, isspace}
use xwp_server.Memory.Stands.{Stands, AllAre, write_all-Stands, Stands-append, Stands-cong}
use xwp_server.Memory.{Mem, seek, slice, Slice}
use xwp_server.Parse.RequestLine.{http_parse_request_line, method_of, skip_space}
use xwp_server.Parse.Token.{ends_token}
use xwp_server.Parse.Url.Origin.{is_path_byte}
use xwp_server.Parse.Url.{Code}
use xwp_server.Process.Pieces.Accepted.{
  request_text, behind_path, Reads, http_parse_request_line-Reads,
}
use xwp_server.Process.Pieces.Joined.{Going, with_received, behind, wait_received}
use xwp_server.Process.Pieces.Line.{text_of, IsQuiet, started, enters, process_line_quiet}
use xwp_server.Process.Pieces.{advance, http_parse_request_line-IsResumable}
use xwp_server.Process.{
  Recv, received, Reply, returned, after_parse, store_buf, line_round, line_wait,
  http_process_request_line,
}
use xwp_server.Request.Buffer.{http_alloc_client_header_buf, buf_create}
use xwp_server.Request.{Buf, Method, Request, http_11, stat_request_line}

abbrev pub text_at : Mem → Option Slice → Option Bytes
text_at m none = none
text_at m (some s) = some (slice m s.at s.len)

abbrev pub path_text : Request → Option Bytes
path_text r = text_at r.mem r.url.path

abbrev pub EndsBefore : ℕ → Option Slice → Type 0
EndsBefore p none = ⊥
EndsBefore p (some s) = s.at + s.len ≤ p

-- The request line is read, and its parts are in the request; what was received behind it stands in the
-- header buffer, behind the path, still to be read.
abbrev pub Served : Request → Method → Bytes → Bytes → Reply × Request → Type 0
Served r verb path rest (reply, r') =
    (reply ≡ returned true)
    × (r'.method ≡ verb)
    × (r'.version ≡ http_11)
    × (path_text r' ≡ some (b'/' ∷ path))
    × (r'.url.port ≡ 80)
    × EndsBefore r'.header_buf.pos r'.url.path
    × Stands r'.mem r'.header_buf.pos rest
    × (r'.header_buf.last ≡ r'.header_buf.pos + length rest)
    × (r'.header_buf.end ≡ r.free + r.conf.client_header_size)
    × (r'.headers_in ≡ r.headers_in)
    × (r'.header_buf.last ≤ r'.header_buf.end)
    × (r'.conf ≡ r.conf)
    × (r'.status ≡ r.status)

advance_empty : (m : Mem) (b : Buf) → b.pos ≡ b.last → advance m b ≡ b
unfolding skip_space seek
advance_empty m b e =
    let none_left : b.last - b.pos ≡ 0 = omega arith in
    ap (λ n. record b { pos = skip_space m b.pos n }) none_left

Reads-Served :
    (r0 r : Request) (b : Buf) (method path rest : Bytes) (verb : Method)
    (out : Code × Request × Buf) (go_on : Going)
    → Reads r b method path verb out
    → Stands r.mem (b.pos + length (request_text method path)) rest
    → b.last ≡ b.pos + length (request_text method path) + length rest
    → b.end ≡ r0.free + r0.conf.client_header_size
    → r.headers_in ≡ r0.headers_in
    → b.last ≤ b.end
    → r.conf ≡ r0.conf
    → r.status ≡ r0.status
    → Served r0 verb path rest (after_parse out.0 false out.1 out.2 go_on)
unfolding after_parse store_buf
Reads-Served r0 r b method path rest verb out go_on h stands last end headers within conf status =
    let after : Buf = record b { pos = b.pos + length (request_text method path) } in
    let buf : after ≡ out.2 = sym h.6 in
    let whole = length-append method (b' ' ∷ b'/' ∷ (path ++ behind_path)) in
    let half = length-append path behind_path in
    let path_before : EndsBefore after.pos out.1.url.path =
      subst (EndsBefore after.pos) (sym h.3) (omega arith) in
    let kept : Stands out.1.mem after.pos rest =
      Stands-cong out.1.mem r.mem after.pos rest (λ i l k. h.7 i l) stands in
    rw (h.0, after_parse)
      (
        refl,
        h.1,
        h.2,
        ap (text_at out.1.mem) h.3 ∙ ap some h.5,
        h.4,
        subst (λ (b : Buf). EndsBefore b.pos out.1.url.path) buf path_before,
        subst (λ (b : Buf). Stands out.1.mem b.pos rest) buf kept,
        subst (λ (b : Buf). b.last ≡ b.pos + length rest) buf last,
        subst (λ (b : Buf). b.end ≡ r0.free + r0.conf.client_header_size) buf end,
        h.8 ∙ headers,
        subst (λ (b : Buf). b.last ≤ b.end) buf within,
        h.9 ∙ conf,
        h.10 ∙ status,
      )

-- The whole text at once.
at_once :
    (r : Request) (ev : List Recv) (method path rest : Bytes) (verb : Method)
    → 0 < length method
    → AllAre (ends_token isspace) false method
    → AllAre is_path_byte true path
    → method_of method (length method) ≡ some verb
    → length (request_text method path ++ rest) ≤ r.conf.client_header_size
    → r.free + r.conf.client_header_size < 2 ^ 64
    → Served r verb path rest
        (http_process_request_line r (received (request_text method path ++ rest) ∷ ev))
unfolding http_process_request_line line_round http_alloc_client_header_buf buf_create
at_once r ev [] path rest verb n solid bytes known fits small = absurd (omega arith)
at_once r ev (x ∷ method) path rest verb n solid bytes known fits small =
    let parse = http_parse_request_line in
    let parser = http_parse_request_line-IsResumable in
    let room : 0 < r.conf.client_header_size = omega arith in
    let s = started parse parser stat_request_line r room in
    let b = s.header_buf in
    let text = request_text (x ∷ method) path in
    let both = length-append text rest in
    let go : Going = λ g r b. line_wait http_parse_request_line ev g r b in
    let begin =
      enters parse parser stat_request_line r room (received (text ++ rest) ∷ ev)
      ∙ ap (line_wait http_parse_request_line (received (text ++ rest) ∷ ev) false s)
          (advance_empty s.mem b refl)
      ∙ wait_received parse parser ev false s b x
          ((method ++ (b' ' ∷ b'/' ∷ (path ++ behind_path))) ++ rest) (omega arith) (omega arith) in
    let r1 = with_received s b (text ++ rest) in
    let b1 = behind b (text ++ rest) in
    let stands =
      Stands-append r1.mem b.last text rest (write_all-Stands s.mem b.last (text ++ rest)) in
    subst (Served r verb path rest) (sym begin) (
      Reads-Served r r1 b1 (x ∷ method) path rest verb (http_parse_request_line r1 b1) go
        (http_parse_request_line-Reads r1 b1 (x ∷ method) path verb stands.0 n solid bytes known
          (omega arith))
        stands.1 (omega arith) (omega arith) refl (omega arith) refl refl)

-- A request line `method /path HTTP/1.1` with a method that is known and holds no blank, and a path
-- of bytes without a meaning of their own, and any bytes behind it, all of which fit into the header
-- buffer, with addresses below 2 ^ 64. They arrive in pieces that are not empty, of which none but
-- the last holds a line feed, with `recv` interrupted any number of times. Then
-- `http_process_request_line` returns 1, the request has the method, the version, the bytes of the
-- path and port 80, the bytes behind the line stand in the header buffer, behind the path, and are
-- the next to be read, and the headers, the configuration and the status are as they were.
pub http_process_request_line-Served :
    (r : Request) (early ev : List Recv) (d method path rest : Bytes) (verb : Method)
    → IsQuiet early
    → 0 < length d
    → text_of early ++ d ≡ request_text method path ++ rest
    → 0 < length method
    → AllAre (ends_token isspace) false method
    → AllAre is_path_byte true path
    → method_of method (length method) ≡ some verb
    → length (request_text method path ++ rest) ≤ r.conf.client_header_size
    → r.free + r.conf.client_header_size < 2 ^ 64
    → Served r verb path rest (http_process_request_line r (early ++ received d ∷ ev))
http_process_request_line-Served r early ev d method path rest verb q k e n solid bytes known fits
      small =
    let size = ap length e in
    let join =
      (process_line_quiet r early ev d q k (omega arith) small).0
      ∙ ap (λ t. http_process_request_line r (received t ∷ ev)) e in
    subst (Served r verb path rest) (sym join)
      (at_once r ev method path rest verb n solid bytes known fits small)
