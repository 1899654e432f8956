-- ===== src/Connection/Turn/Reaches.antt =====
-- A request that has been received is answered by its handler.
use xwp_server.Base.{
  ℕ, zero, suc, ◌+◌, ◌-◌, ◌<◌, ◌≡◌, refl, sym, subst, ap, ◌∙◌, Bool, true, false, List, [], ◌∷◌,
  Option, none, some, ◌==◌, leb, arith, ◌≤◌, ◌&&◌, ◌++◌, length, if◌then◌else◌,
}
use xwp_server.CLib.{Bytes, codes}
use xwp_server.Connection.Receive.Whole.{IsReceived}
use xwp_server.Connection.Receive.{connection_gen_request, is_handled}
use xwp_server.Connection.Route.{Loc, Vhost, serves, find_vhost, find_loc, route}
use xwp_server.Connection.Route.First.{Splits, first-Splits}
use xwp_server.Connection.Response.Length.{Measured}
use xwp_server.Connection.Response.{response_headers, printed, response_text}
use xwp_server.Connection.Send.Delivered.{HasBytes}
use xwp_server.Connection.Send.Ends.{TakesBody, connection_send_response_ends}
use xwp_server.Connection.Send.{BodyOut, body_bytes}
use xwp_server.Connection.Turn.{
  text_at, Calls, finish, host_text, find_at, handle_at, connection_process_request, process,
  behind_receive, turn, is_sent, behind_continue, respond, behind_send, goes_on, breaks,
}
use xwp_server.Http.Headers.{Str, Header, http_header_str}
use xwp_server.Memory.Stands.{AllAre}
use xwp_server.Memory.{Mem, Slice, seek, slice, c_string}
use xwp_server.Process.Pieces.Served
use xwp_server.Http.Status.{http_status_line}
use xwp_server.Http.Table.{found}
use xwp_server.Io.Written.{takes}
use xwp_server.Io.{nwrite}
use xwp_server.Process.HeaderFields.{continue_text}
use xwp_server.Process.{returned, http_status_close}
use xwp_server.Request.{Body, Method, Request}

seek_end :
    (stop : ℕ → Bool) (m : Mem) (p n : ℕ)
    → AllAre stop false (slice m p n)
    → seek stop m p n ≡ p + n
unfolding seek slice
seek_end stop m p zero h = omega arith
seek_end stop m p (suc n) h = rw h.0 (seek_end stop m (p + 1) n h.1 ∙ omega arith)

-- A stored text without a NUL is read whole.
c_string-slice :
    (m : Mem) (p n : ℕ) → AllAre (λ c. c == 0) false (slice m p n) → c_string m p n ≡ slice m p n
unfolding c_string
c_string-slice m p n h =
    let size : seek (λ c. c == 0) m p n - p ≡ n = omega (arith, seek_end (λ c. c == 0) m p n h) in
    ap (slice m p) size

abbrev or_nil : Option Bytes → Bytes
or_nil none = []
or_nil (some s) = s

text_at_stored :
    (m : Mem) (s : Option Slice) (path : Bytes)
    → Served.text_at m s ≡ some path
    → AllAre (λ c. c == 0) false path
    → text_at m s ≡ some path
text_at_stored m none path e h = cc
text_at_stored m (some s) path e h =
    let bytes : slice m s.at s.len ≡ path = ap or_nil e in
    ap some (c_string-slice m s.at s.len (subst (AllAre (λ c. c == 0) false) (sym bytes) h) ∙ bytes)

module _ (matches : Bytes → Bytes → Bool) (default : Vhost) (vhosts : List Vhost)
    (handle : ℕ → Request → Body → Request × BodyOut) where
  processed :
      (r : Request) (body : Body) (host path : Bytes) (v : Str) (loc : Loc)
      → http_header_str r.headers_in (codes "Host") ≡ some v
      → v.text ≡ some host
      → text_at r.mem r.url.path ≡ some path
      → route matches default vhosts (some host) path ≡ some loc
      → connection_process_request matches default vhosts handle r body
        ≡ some (handle loc.handler r body)
  unfolding connection_process_request host_text find_at handle_at route
  processed r body host path v loc e f g k = rw (e, connection_process_request, f, g, k) refl

  -- The host that is asked for, and the location of the path, by their places in the configuration.
  routed :
      (host path : Bytes) (vhost : Vhost) (loc : Loc)
      → Splits (serves host) vhosts vhost
      → Splits (λ l. matches l.pattern path) vhost.locs loc
      → route matches default vhosts (some host) path ≡ some loc
  unfolding route find_vhost find_loc
  routed host path vhost loc h k =
      let served : find_vhost default vhosts (some host) ≡ vhost =
        rw (first-Splits (serves host) vhosts vhost h, find_vhost) refl in
      ap (λ u. find_loc matches path u.locs) served
      ∙ first-Splits (λ l. matches l.pattern path) vhost.locs loc k

  handled_turn :
      (finalized : Bool) (calls : Calls) (r : Request) (body : Body) (a : Request × BodyOut)
      → r.status < 300
      → connection_process_request matches default vhosts handle r body ≡ some a
      → behind_receive matches default vhosts handle finalized calls (returned true) r body
        ≡ finish finalized calls a.0 a.1
  unfolding behind_receive is_handled process
  handled_turn finalized calls r body a small e =
      let low : leb 300 r.status ≡ false = ground arith in rw (low, e) refl

-- The text of the response that a handler has left.
abbrev pub text_of_answer : Bytes → Request × BodyOut → Bytes
text_of_answer line (r, out) =
    response_text (text_at r.mem r.version_str) line
      (response_headers r.keep_alive (length (body_bytes out)) r.headers_out)

-- A response of a handler that can be sent: a status below 300 with its status line, a version that is
-- printed with eight bytes, headers whose values have their length with them, a body with bytes where
-- it is in memory, and a socket that takes all of it.
abbrev pub CanBeSent : Calls → Bytes → Request × BodyOut → Type 0
CanBeSent calls line (r, out) =
    (r.status < 300)
    × (http_status_line r.status ≡ found line)
    × (length (printed (text_at r.mem r.version_str)) ≡ 8)
    × Measured r.headers_out
    × HasBytes out
    × (length (text_of_answer line (r, out)) ≤ takes calls.text_sends)
    × TakesBody out calls.body_sends calls.file_sent

sent_turn :
    (finalized : Bool) (calls : Calls) (line : Bytes) (a : Request × BodyOut)
    → CanBeSent calls line a
    → finish finalized calls a.0 a.1 ≡ (
      if a.0.keep_alive && finalized then goes_on else breaks,
      text_of_answer line a ++ body_bytes a.1,
    )
unfolding finish respond behind_send
sent_turn finalized calls line (r, out) (small, known, eight, measured, bytes, room, rest) =
    let low : leb 300 r.status ≡ false = ground arith in
    let stays : (r.status == http_status_close) ≡ false = ground arith in
    rw (low, stays)
      (ap (behind_send (r.keep_alive && finalized)) (
        connection_send_response_ends r.keep_alive (text_at r.mem r.version_str) r.status line
          r.headers_out out calls.text_sends calls.body_sends calls.file_sent known eight measured
          bytes room rest))

module _ (matches : Bytes → Bytes → Bool) (default : Vhost) (vhosts : List Vhost)
    (handle : ℕ → Request → Body → Request × BodyOut) where
  -- A request that was received whole, from a state with a status that is no failure, with a path
  -- without a NUL and a "Host" whose first virtual host in the list that serves it has a location
  -- whose pattern is its first to match the path. That location's handler makes of the request and its
  -- body a response with a status below 300 that has a status line, a version that is printed with
  -- eight bytes, headers whose values have their length with them, and a body with bytes where it is
  -- in memory; and the socket takes all of it. Then the turn of `connection_run` sends exactly the
  -- text of that response and its body, and the loop goes on exactly if the connection is to be kept
  -- and `connection_finalize_request` returns 1; but where "Expect" was answered, what was sent of
  -- that stands in front, and the turn waits if that call does not return.
  pub turn_reaches :
      (finalized : Bool) (calls : Calls) (r : Request) (given : Body) (verb : Method)
      (path content host line : Bytes) (headers : List Header) (v : Str) (vhost : Vhost) (loc : Loc)
      → let answer = nwrite continue_text calls.expect_sends in
        let (reply, r', body) =
          connection_gen_request
            (is_sent answer.0)
            given
            r
            calls.line_events
            calls.header_events
            calls.body_events in
        IsReceived r given verb path headers content (reply, r', body)
        → r.status < 300
        → AllAre (λ c. c == 0) false path
        → http_header_str headers (codes "Host") ≡ some v
        → v.text ≡ some host
        → Splits (serves host) vhosts vhost
        → Splits (λ l. matches l.pattern (b'/' ∷ path)) vhost.locs loc
        → CanBeSent calls line (handle loc.handler r' body)
        → turn matches default vhosts handle finalized calls r given
          ≡ behind_continue r'.continued answer (
            if (handle loc.handler r' body).0.keep_alive && finalized then goes_on else breaks,
            text_of_answer line (handle loc.handler r' body)
                ++ body_bytes (handle loc.handler r' body).1,
          )
  unfolding turn
  turn_reaches finalized calls r given verb path content host line headers v vhost loc h ok plain e
        f at_host at_path fits =
      let answer = nwrite continue_text calls.expect_sends in
      let out =
        connection_gen_request (is_sent answer.0) given r calls.line_events calls.header_events
          calls.body_events in
      let text : text_at out.1.mem out.1.url.path ≡ some (b'/' ∷ path) =
        text_at_stored out.1.mem out.1.url.path (b'/' ∷ path) h.3 (refl, plain) in
      let found =
        processed matches default vhosts handle out.1 out.2 host (b'/' ∷ path) v loc
          (ap (λ hs. http_header_str hs (codes "Host")) h.4 ∙ e) f text
          (routed matches default vhosts handle host (b'/' ∷ path) vhost loc at_host at_path) in
      ap (behind_continue out.1.continued answer) (
        ap (λ reply. behind_receive matches default vhosts handle finalized calls reply out.1 out.2)
          h.0
        ∙ handled_turn matches default vhosts handle finalized calls out.1 out.2
            (handle loc.handler out.1 out.2) (omega (arith, h.6)) found
        ∙ sent_turn finalized calls line (handle loc.handler out.1 out.2) fits)
