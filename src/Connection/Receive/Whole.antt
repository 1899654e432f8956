-- ===== src/Connection/Receive/Whole.antt =====
-- A whole request of a client, from the bytes that arrive to the fields of the request.
use xwp_server.Base.{
  ℕ, ◌+◌, ◌^◌, ◌≤◌, ◌<◌, ◌≡◌, refl, sym, ap, ◌∙◌, Bool, true, false, List, ◌∷◌, ◌++◌, length,
  length-append, arith, pos, [], some, Option, none, subst, ℤ, inl, inr,
}
use xwp_server.CLib.{Bytes, isspace}
use xwp_server.Connection.Receive.{receive_body, receive_headers, connection_gen_request}
use xwp_server.Http.Headers.{Header, value, http_header_str, http_header_int}
use xwp_server.Memory.Stands.{Stands, AllAre, Stands-append, Stands-cong}
use xwp_server.Memory.Walk.{slice-cong}
use xwp_server.Memory.{Mem, Slice}
use xwp_server.Parse.HeaderLine.Block.{set_all}
use xwp_server.Parse.RequestLine.{method_of}
use xwp_server.Parse.Token.{ends_token}
use xwp_server.Parse.Url.Origin.{is_path_byte}
use xwp_server.Process.Body.There.{recorded, http_process_content_body_there}
use xwp_server.Process.Body.{Done, is_head, http_process_content_body}
use xwp_server.Process.HeaderFields.{
  header_content_len, header_keepalive, header_expect, keep_alive_of, not_negative,
  http_process_header_line,
}
use xwp_server.Process.Pieces.Accepted.{request_text}
use xwp_server.Process.Pieces.Fields.{block_text, AreFields}
use xwp_server.Process.Pieces.Line.{text_of, IsQuiet}
use xwp_server.Process.Pieces.Served.{
  Served, EndsBefore, text_at, path_text, http_process_request_line-Served,
}
use xwp_server.Process.{Recv, received, Reply, returned, request_phase, http_process_request_line}
use xwp_server.Request.{Buf, Body, Method, Request, http_11, stat_content_body}
use xwp_server.Process.HeaderFields.Read.{
  read_request, block_kept, http_process_header_line_lem, fields_taken,
}

-- Bytes in front of `p` that are the same make the same text.
text_at-cong :
    (m m' : Mem) (p : ℕ) (s : Option Slice)
    → EndsBefore p s
    → ((i : ℕ) → i < p → m' i ≡ m i)
    → text_at m' s ≡ text_at m s
text_at-cong m m' p none h k = refl
text_at-cong m m' p (some s) h k = ap some (slice-cong m' m s.at s.len (λ i l g. k i (omega arith)))

-- A request that has been received, but for its body: its method, version, path, headers and the fields
-- taken from them; the bytes behind the headers are in the header buffer, still to be read.
abbrev pub HasHeaders :
    Request → Method → Bytes → List Header → ℤ → Bytes → Reply × Request → Type 0
HasHeaders r0 verb path headers n rest (reply, r) =
    (reply ≡ returned true)
    × (r.method ≡ verb)
    × (r.version ≡ http_11)
    × (path_text r ≡ some (b'/' ∷ path))
    × (r.headers_in ≡ headers)
    × (r.in_content_len ≡ not_negative n)
    × (r.keep_alive ≡ keep_alive_of http_11 (http_header_str headers header_keepalive))
    × Stands r.mem r.header_buf.pos rest
    × (r.header_buf.last ≡ r.header_buf.pos + length rest)
    × (r.header_buf.last ≤ r.header_buf.end)
    × (r.conf ≡ r0.conf)
    × (r.status ≡ r0.status)

headers-HasHeaders :
    (r0 r : Request) (can_send : Bool) (events : List Recv) (path rest : Bytes) (verb : Method)
    (fields : List (Bytes × Bytes)) (n : ℤ)
    → AreFields fields
    → Served r0 verb path (block_text fields ++ rest) (returned true, r)
    → r.header_buf.end < 2 ^ 64
    → http_header_int (set_all r0.headers_in fields) header_content_len ≡ value n
    → http_header_str (set_all r0.headers_in fields) header_expect ≡ none
    → HasHeaders r0 verb path
        (set_all r0.headers_in fields)
        n
        rest
        (http_process_header_line request_phase can_send r events)
headers-HasHeaders r0 r can_send events path rest verb fields n ok h small e f =
    let same : set_all r.headers_in fields ≡ set_all r0.headers_in fields =
      ap (λ hs. set_all hs fields) h.9 in
    let r1 = read_request r fields rest h.6 ok h.7 h.10 small in
    let kept = block_kept r fields rest h.6 ok h.7 h.10 small in
    let join =
      http_process_header_line_lem r fields rest h.6 ok h.7 h.10 small can_send events
      ∙ fields_taken can_send r1 n (ap (λ hs. http_header_int hs header_content_len) same ∙ e)
          (ap (λ hs. http_header_str hs header_expect) same ∙ f) in
    let behind = Stands-append r.mem r.header_buf.pos (block_text fields) rest h.6 in
    let both = length-append (block_text fields) rest in
    subst (HasHeaders r0 verb path (set_all r0.headers_in fields) n rest) (sym join) (
      refl,
      h.1,
      h.2,
      text_at-cong r.mem r1.mem r.header_buf.pos r.url.path h.5 (λ i l. kept.1 i (inl l)) ∙ h.3,
      same,
      refl,
      ap (λ v. keep_alive_of v (http_header_str r1.headers_in header_keepalive)) h.2
          ∙ ap (λ hs. keep_alive_of http_11 (http_header_str hs header_keepalive)) same,
      Stands-cong r1.mem r.mem r1.header_buf.pos rest (λ i l k. kept.1 i (inr l)) behind.1,
      omega (arith, h.7),
      h.10,
      h.11,
      h.12,
    )

-- Where the bytes of a body are.
abbrev pub StandsIn : Mem → Option Buf → Bytes → Type 0
StandsIn m none text = ⊥
StandsIn m (some b) text = Stands m b.pos text

abbrev pub HasContent : Request → Body → Bytes → Body → Type 0
HasContent r given [] body = body ≡ given
HasContent r given (c ∷ content) body =
    (body.content_len ≡ pos (length (c ∷ content))) × StandsIn r.mem body.content (c ∷ content)

-- A request that has been received, with its method, version, path, headers, the decision on keeping the
-- connection that they give, and its body; the status is as it was.
abbrev pub IsReceived : Request → Body → Method → Bytes → List Header → Bytes → Done → Type 0
IsReceived r0 given verb path headers content (reply, r, body) =
    (reply ≡ returned true)
    × (r.method ≡ verb)
    × (r.version ≡ http_11)
    × (path_text r ≡ some (b'/' ∷ path))
    × (r.headers_in ≡ headers)
    × (r.keep_alive ≡ keep_alive_of http_11 (http_header_str headers header_keepalive))
    × (r.status ≡ r0.status)
    × HasContent r given content body

recorded-HasContent :
    (r : Request) (given : Body) (content more : Bytes)
    → Stands r.mem r.header_buf.pos (content ++ more)
    → HasContent r given content (recorded r.header_buf (length content) given)
recorded-HasContent r given [] more h = refl
recorded-HasContent r given (c ∷ content) more h =
    (refl, (Stands-append r.mem r.header_buf.pos (c ∷ content) more h).0)

body-IsReceived :
    (r0 r : Request) (given : Body) (verb : Method) (path content more : Bytes)
    (headers : List Header) (n : ℤ) (events : List Recv)
    → HasHeaders r0 verb path headers n (content ++ more) (returned true, r)
    → is_head verb ≡ false
    → not_negative n ≡ pos (length content)
    → length content ≤ r0.conf.max_content_len
    → IsReceived r0 given verb path headers content
        (http_process_content_body r.in_content_len r given events)
body-IsReceived r0 r given verb path content more headers n events h not_head size small =
    let both = length-append content more in
    let limit = ap (λ c. c.max_content_len) h.10 in
    let join =
      ap (λ len. http_process_content_body len r given events) (h.5 ∙ size)
      ∙ http_process_content_body_there r given (length content) events (ap is_head h.1 ∙ not_head)
          (omega (arith, h.8)) h.9 (omega arith) in
    subst (IsReceived r0 given verb path headers content) (sym join) (
      refl,
      h.1,
      h.2,
      h.3,
      h.4,
      h.6,
      h.11,
      recorded-HasContent (record r { state = stat_content_body }) given content more h.7,
    )

-- A whole request arrives: the line `method /path HTTP/1.1`, with a method that is known, holds no
-- blank and is not HEAD and a path of bytes without a meaning of their own; lines `name: value`,
-- where no name is empty or holds a blank or a colon, and no value is empty, begins with a blank or
-- holds a line's end; the empty line behind them, the body, and any bytes behind it. It comes in
-- pieces that are not empty, of which none but the last holds a line feed, with `recv` interrupted
-- any number of times. It all fits into the header buffer, with addresses below 2 ^ 64, no header
-- asks for "Expect", and the headers give the body's length, which is allowed, or none and there is
-- no body. Then `connection_gen_request` returns 1 and leaves a request with the method, the
-- version, the path, the headers that there were with the fields set one after another, the decision
-- on keeping the connection that these headers give, the body's length and its bytes, and the status
-- that there was.
pub connection_gen_request-IsReceived :
    (can_send : Bool) (given : Body) (r : Request)
    (early later header_events body_events : List Recv) (d method path content more : Bytes)
    (verb : Method) (fields : List (Bytes × Bytes)) (n : ℤ)
    → IsQuiet early
    → 0 < length d
    → text_of early ++ d ≡ request_text method path ++ (block_text fields ++ (content ++ more))
    → 0 < length method
    → AllAre (ends_token isspace) false method
    → AllAre is_path_byte true path
    → method_of method (length method) ≡ some verb
    → is_head verb ≡ false
    → AreFields fields
    → length (request_text method path ++ (block_text fields ++ (content ++ more)))
      ≤ r.conf.client_header_size
    → r.free + r.conf.client_header_size < 2 ^ 64
    → http_header_int (set_all r.headers_in fields) header_content_len ≡ value n
    → not_negative n ≡ pos (length content)
    → length content ≤ r.conf.max_content_len
    → http_header_str (set_all r.headers_in fields) header_expect ≡ none
    → IsReceived r given verb path (set_all r.headers_in fields) content (
        connection_gen_request can_send given r
          (early ++ received d ∷ later)
          header_events
          body_events)
unfolding connection_gen_request receive_headers receive_body
connection_gen_request-IsReceived can_send given r early later header_events body_events d method
      path content more verb fields n quiet some_d text some_method solid bytes known not_head ok
      fits small int size allowed expect =
    let rest = content ++ more in
    let line = http_process_request_line r (early ++ received d ∷ later) in
    let h =
      http_process_request_line-Served r early later d method path (block_text fields ++ rest) verb
        quiet some_d text some_method solid bytes known fits small in
    let whole =
      headers-HasHeaders r line.1 can_send header_events path rest verb fields n ok
        (refl, h.1, h.2, h.3, h.4, h.5, h.6, h.7, h.8, h.9, h.10, h.11, h.12) (omega (arith, h.8))
        int expect in
    let next = http_process_header_line request_phase can_send line.1 header_events in
    let join =
      ap (λ reply. receive_headers can_send given header_events body_events reply line.1) h.0
      ∙ ap (λ reply. receive_body can_send given body_events reply next.1) whole.0 in
    subst (IsReceived r given verb path (set_all r.headers_in fields) content) (sym join) (
      body-IsReceived r next.1 given verb path content more (set_all r.headers_in fields) n
        body_events
        (
          refl, whole.1, whole.2, whole.3, whole.4, whole.5, whole.6, whole.7, whole.8, whole.9,
          whole.10, whole.11,
        )
        not_head size allowed)
