-- ===== src/Connection/Turn.antt =====
-- One turn of the loop of `connection_run` in src/connection.c, with `connection_process_request`, for
-- a connection that does not time out. `handle` stands for `module_process` of the handler with this
-- number and, where that returns HTTP_MODULE_PROCESS_UPSTREAM, `upstream_process`.
pub mod Reaches
pub mod Responded
use xwp_server.Base.{
  ℕ, Bool, true, false, ◌&&◌, List, [], ◌∷◌, ◌++◌, ◌==◌, leb, ltb, length, Option, none, some,
  if◌then◌else◌,
}
use xwp_server.CLib.{Bytes, codes}
use xwp_server.Connection.Receive.{connection_gen_request, is_handled}
use xwp_server.Connection.Response.{connection_special_response}
use xwp_server.Connection.Route.{Loc, Vhost, find_vhost, find_loc}
use xwp_server.Connection.Send.{
  BodyOut, no_body, file_body, memory_body, body_bytes, Ending, returned, aborted, overread,
  waiting, connection_send_response,
}
use xwp_server.Http.Headers.{Str, http_header_str}
use xwp_server.Http.Table.{found, missing, out_of_range}
use xwp_server.Io.{Send, Outcome, wrote, blocked, nwrite}
use xwp_server.Memory.{Mem, Slice, c_string}
use xwp_server.Process.HeaderFields.{continue_text}
use xwp_server.Process.{Recv, Reply, http_status_close}
use xwp_server.Request.{Body, Request}

-- How a turn ends: the loop goes on with a new request, or is left; or a read through NULL, a failing
-- `assert` or a read behind a table ends the process; or a call waits.
pub data TurnEnd : Type 0 where
  goes_on breaks crashed hangs : TurnEnd

-- The string at a `str_t`.
abbrev pub text_at : Mem → Option Slice → Option Bytes
text_at m none = none
text_at m (some s) = some (c_string m s.at s.len)

-- The results of the calls that a turn makes; `expect_sends` are those of `send` in the answer to
-- "Expect", where there is one.
pub record Calls : Type 0 where
  pub line_events : List Recv
  pub header_events : List Recv
  pub body_events : List Recv
  pub expect_sends : List Send
  pub text_sends : List Send
  pub body_sends : List Send
  pub file_sent : Option ℕ

-- The page is the new body; with a file whose size is 0 there would be two.
unfoldable pub with_page : BodyOut → Option Bytes → Option BodyOut
with_page body none = some body
with_page (file_body s) (some page) = none
with_page body (some page) = some (memory_body page)

-- `connection_special_response`, with what it makes of the body and of `keep_alive`. `err_msg` is
-- never set.
unfoldable pub special : Request → BodyOut → Option (BodyOut × Bool)
unfolding with_page
special r body =
    if ltb 0 (length (body_bytes body))
    then some (body, r.keep_alive)
    else elim (connection_special_response r.status none none r.keep_alive) [
      | missing ↦ none
      | out_of_range ↦ none
      | found (page, keep) ↦ elim (with_page body page) [ none ↦ none | some b ↦ some (b, keep) ]
    ]

-- Behind `connection_send_response`. `finalized` is the result of `connection_finalize_request`.
unfoldable pub behind_send : Bool → Ending × Bytes → TurnEnd × Bytes
behind_send keep (returned true, wire) = (if keep then goes_on else breaks, wire)
behind_send keep (returned false, wire) = (breaks, wire)
behind_send keep (waiting, wire) = (hangs, wire)
behind_send keep (aborted, wire) = (crashed, wire)
behind_send keep (overread, wire) = (crashed, wire)

-- The result of `nwrite` for the answer to "Expect".
unfoldable pub is_sent : Outcome → Bool
is_sent (wrote b) = b
is_sent blocked = false

-- What the peer gets where that `nwrite` was called: its bytes, with those of the rest of the turn
-- behind them, to which a call that blocks does not come.
unfoldable pub behind_continue : Bool → Outcome × Bytes → TurnEnd × Bytes → TurnEnd × Bytes
behind_continue false answer rest = rest
behind_continue true (wrote b, interim) (last, wire) = (last, interim ++ wire)
behind_continue true (blocked, interim) rest = (hangs, interim)

module _ (finalized : Bool) (calls : Calls) where
  unfoldable pub respond : Bool → Request → BodyOut → TurnEnd × Bytes
  unfolding behind_send
  respond keep r body = behind_send (keep && finalized) (
      connection_send_response keep (text_at r.mem r.version_str) r.status r.headers_out body
        calls.text_sends calls.body_sends calls.file_sent)

  -- From `DONE` on.
  unfoldable pub finish : Request → BodyOut → TurnEnd × Bytes
  unfolding respond special
  finish r body =
      let with_body = respond r.keep_alive r body in
      let with_special : TurnEnd × Bytes = elim (special r body) [
        | none ↦ (crashed, [])
        | some (body', keep) ↦ respond keep r body'
      ] in
      if r.status == http_status_close
      then (breaks, [])
      else if leb 300 r.status
      then with_special
      else with_body

-- The host header, of which the data is read.
unfoldable pub host_text : Option Str → Option (Option Bytes)
host_text none = some none
host_text (some v) = elim v.text [ none ↦ none | some s ↦ some (some s) ]

-- The loop over the locations, each of which reads the path.
unfoldable pub find_at : (Bytes → Bytes → Bool) → Option Bytes → List Loc → Option (Option Loc)
find_at matches none [] = some none
find_at matches none (l ∷ locs) = none
find_at matches (some path) locs = some (find_loc matches path locs)

module _ (matches : Bytes → Bytes → Bool) (default : Vhost) (vhosts : List Vhost)
    (handle : ℕ → Request → Body → Request × BodyOut) where
  unfoldable pub handle_at : Request → Body → Option Loc → Request × BodyOut
  handle_at r body none = (record r { status = 400 }, no_body)
  handle_at r body (some l) = handle l.handler r body

  -- `none` is a read through NULL.
  unfoldable pub connection_process_request : Request → Body → Option (Request × BodyOut)
  unfolding host_text find_at handle_at
  connection_process_request r body =
      elim (host_text (http_header_str r.headers_in (codes "Host"))) [
        | none ↦ none
        | some host ↦
            elim (find_at matches (text_at r.mem r.url.path)
              (find_vhost default vhosts host).locs) [
                | none ↦ none
                | some loc ↦ some (handle_at r body loc)
              ]
      ]

  module _ (finalized : Bool) (calls : Calls) where
    unfoldable pub process : Option (Request × BodyOut) → TurnEnd × Bytes
    unfolding finish
    process none = (crashed, [])
    process (some (r, body)) = finish finalized calls r body

    -- Behind `connection_gen_request`, whose result is the status that it leaves.
    unfoldable pub behind_receive : Reply → Request → Body → TurnEnd × Bytes
    unfolding process connection_process_request finish
    behind_receive (Reply.returned b) r body =
        let handled = process (connection_process_request r body) in
        let special = finish finalized calls r no_body in if is_handled r then handled else special
    behind_receive Reply.null_read r body = (crashed, [])
    behind_receive Reply.aborted r body = (crashed, [])
    behind_receive Reply.waiting r body = (hangs, [])

    unfoldable pub turn : Request → Body → TurnEnd × Bytes
    unfolding behind_receive is_sent behind_continue
    turn r body =
        let answer = nwrite continue_text calls.expect_sends in
        let (reply, r', body') =
          connection_gen_request (is_sent answer.0) body r calls.line_events calls.header_events
            calls.body_events in
        behind_continue r'.continued answer (behind_receive reply r' body')
