-- ===== src/Connection/Loop/Answered.antt =====
-- What is sent on a connection.
use xwp_server.Base.{ℕ, Bool, List, [], ◌∷◌}
use xwp_server.CLib.{Bytes}
use xwp_server.Connection.Loop.{
  http_request_create, new_body, Incoming, behind_turn, connection_run,
}
use xwp_server.Connection.Receive.{connection_gen_request}
use xwp_server.Connection.Route.{Vhost}
use xwp_server.Connection.Send.{BodyOut}
use xwp_server.Connection.Turn.Responded.{Answered, GoesOnAnswered, turn-Answered}
use xwp_server.Connection.Turn.{TurnEnd, goes_on, breaks, crashed, hangs, turn, is_sent}
use xwp_server.Io.{nwrite}
use xwp_server.Process.HeaderFields.{continue_text}
use xwp_server.Request.{Conf, Body, Request}

-- Whether the functions that receive the request have answered its "Expect".
abbrev pub is_continued : Conf → Incoming → Bool
is_continued conf i =
    (connection_gen_request (is_sent (nwrite continue_text i.calls.expect_sends).0) new_body
      (http_request_create conf i.mem i.free) i.calls.line_events i.calls.header_events
      i.calls.body_events).1.continued

-- Every turn in front of the last one sent a whole response to its request, behind the answer to
-- "Expect" where there was one.
abbrev pub AllAnswered : Conf → List Incoming → List Bytes → Type 0
AllAnswered conf incoming [] = Unit {0}
AllAnswered conf incoming (wire ∷ []) = Unit {0}
AllAnswered conf [] (wire ∷ (next ∷ wires)) = ⊥
AllAnswered conf (i ∷ incoming) (wire ∷ (next ∷ wires)) =
    Answered (is_continued conf i) i.calls.expect_sends wire
    × AllAnswered conf incoming (next ∷ wires)

AllAnswered-cons :
    (conf : Conf) (i : Incoming) (incoming : List Incoming) (wire : Bytes) (wires : List Bytes)
    → Answered (is_continued conf i) i.calls.expect_sends wire
    → AllAnswered conf incoming wires
    → AllAnswered conf (i ∷ incoming) (wire ∷ wires)
AllAnswered-cons conf i incoming wire [] h k = tt
AllAnswered-cons conf i incoming wire (next ∷ wires) h k = (h, k)

behind_turn-AllAnswered :
    (conf : Conf) (i : Incoming) (incoming : List Incoming) (t : TurnEnd × Bytes)
    (rest : TurnEnd × List Bytes)
    → GoesOnAnswered (is_continued conf i) i.calls.expect_sends t
    → AllAnswered conf incoming rest.1
    → AllAnswered conf (i ∷ incoming) (behind_turn t rest).1
unfolding behind_turn
behind_turn-AllAnswered conf i incoming (goes_on, wire) (last, wires) h k =
    AllAnswered-cons conf i incoming wire wires h k
behind_turn-AllAnswered conf i incoming (breaks, wire) rest h k = tt
behind_turn-AllAnswered conf i incoming (crashed, wire) rest h k = tt
behind_turn-AllAnswered conf i incoming (hangs, wire) rest h k = tt

module _ (conf : Conf) (matches : Bytes → Bytes → Bool) (default : Vhost) (vhosts : List Vhost)
    (handle : ℕ → Request → Body → Request × BodyOut) where
  -- On a connection that does not time out, whatever the client sends and the handlers do, in front of
  -- what its last turn has sent the peer gets for each request a whole response, with a status line of
  -- the table and the header for a connection that is kept, and in front of that nothing if
  -- the receiving functions have not answered its "Expect"; if they have, the whole answer 100, or a
  -- proper beginning of it where `nwrite` has failed to send it.
  pub connection_run-AllAnswered :
      (incoming : List Incoming)
      → AllAnswered conf incoming (connection_run conf matches default vhosts handle incoming).1
  unfolding connection_run
  connection_run-AllAnswered [] = tt
  connection_run-AllAnswered (i ∷ incoming) =
      let r = http_request_create conf i.mem i.free in
      behind_turn-AllAnswered conf i incoming
        (turn matches default vhosts handle i.finalized i.calls r new_body)
        (connection_run conf matches default vhosts handle incoming)
        (turn-Answered i.finalized i.calls matches default vhosts handle r new_body)
        (connection_run-AllAnswered incoming)
