-- ===== src/Connection/Turn/Responded.antt =====
-- The turns after which the loop goes on.
use xwp_server.Base.{
  ℕ, ◌≡◌, refl, ap, subst, Bool, true, false, ◌&&◌, List, ◌==◌, leb, Option, none, some, Bool-cases,
  Option-cases, inl, inr, ◌<◌, ◌⊎◌, [], ◌++◌, length, take,
}
use xwp_server.CLib.{Bytes}
use xwp_server.Connection.Receive.{connection_gen_request, is_handled}
use xwp_server.Connection.Route.{Vhost}
use xwp_server.Connection.Send.Sent.{IsResponse, connection_send_response-IsResponse}
use xwp_server.Connection.Send.{
  BodyOut, no_body, Ending, returned, aborted, overread, waiting, connection_send_response,
}
use xwp_server.Connection.Turn.{
  TurnEnd, goes_on, text_at, Calls, special, behind_send, respond, finish, process, behind_continue,
  is_sent, connection_process_request, behind_receive, turn,
}
use xwp_server.Io.Written.{Prefix, nwrite-Prefix}
use xwp_server.Io.{Send, Outcome, wrote, blocked, nwrite}
use xwp_server.Process.Body.{Done}
use xwp_server.Process.HeaderFields.{continue_text}
use xwp_server.Process.{Reply, http_status_close}
use xwp_server.Request.{Body, Request}

-- The response to a request as some function has left it, with the connection to be kept.
abbrev pub Responded : Bytes → Type 0
Responded wire =
    (r : Request) × (body : BodyOut) × IsResponse true (text_at r.mem r.version_str) r.status
      r.headers_out body wire

-- If the loop goes on, there was a response.
abbrev pub AnswersFirst : TurnEnd × Bytes → Type 0
AnswersFirst (goes_on, wire) = Responded wire
AnswersFirst _ = Unit {0}

-- What the peer gets in front of a response: where "Expect" has not been answered nothing, and else the
-- whole answer to it, or, where `nwrite` has failed, a proper beginning of that.
abbrev pub IsInterim : Bool → List Send → Bytes → Type 0
IsInterim false sends interim = interim ≡ []
IsInterim true sends interim =
    (interim ≡ continue_text)
    ⊎ (((nwrite continue_text sends).0 ≡ wrote false)
        × (n : ℕ) × (n < length continue_text)
        × (interim ≡ take n continue_text))

-- The bytes of a turn with a response.
abbrev pub Answered : Bool → List Send → Bytes → Type 0
Answered continued sends wire =
    (interim : Bytes) × (response : Bytes) × (wire ≡ interim ++ response)
    × IsInterim continued sends interim
    × Responded response

-- If the loop goes on, the turn has sent a response.
abbrev pub GoesOnAnswered : Bool → List Send → TurnEnd × Bytes → Type 0
GoesOnAnswered continued sends (goes_on, wire) = Answered continued sends wire
GoesOnAnswered continued sends _ = Unit {0}

behind_continue-Answered :
    (sends : List Send) (continued : Bool) (answer : Outcome × Bytes) (t : TurnEnd × Bytes)
    → nwrite continue_text sends ≡ answer
    → Prefix continue_text answer
    → AnswersFirst t
    → GoesOnAnswered continued sends (behind_continue continued answer t)
unfolding behind_continue
behind_continue-Answered sends false answer (goes_on, wire) e p h = ([], wire, refl, refl, h)
behind_continue-Answered sends false answer (TurnEnd.breaks, wire) e p h = tt
behind_continue-Answered sends false answer (TurnEnd.crashed, wire) e p h = tt
behind_continue-Answered sends false answer (TurnEnd.hangs, wire) e p h = tt
behind_continue-Answered sends true (blocked, interim) t e p h = tt
behind_continue-Answered sends true (wrote true, interim) (goes_on, wire) e p h =
    (interim, wire, refl, inl p, h)
behind_continue-Answered sends true (wrote false, interim) (goes_on, wire) e p h =
    (interim, wire, refl, inr (ap (λ o. o.0) e, p.0, p.1, p.2), h)
behind_continue-Answered sends true (wrote b, interim) (TurnEnd.breaks, wire) e p h = tt
behind_continue-Answered sends true (wrote b, interim) (TurnEnd.crashed, wire) e p h = tt
behind_continue-Answered sends true (wrote b, interim) (TurnEnd.hangs, wire) e p h = tt

behind_send-AnswersFirst :
    (keep finalized : Bool) (d : Ending × Bytes)
    → ((wire : Bytes) → keep ≡ true → d ≡ (returned true, wire) → Responded wire)
    → AnswersFirst (behind_send (keep && finalized) d)
unfolding behind_send
behind_send-AnswersFirst true true (returned true, wire) h = h wire refl refl
behind_send-AnswersFirst true false (returned true, wire) h = tt
behind_send-AnswersFirst false finalized (returned true, wire) h = tt
behind_send-AnswersFirst keep finalized (returned false, wire) h = tt
behind_send-AnswersFirst keep finalized (aborted, wire) h = tt
behind_send-AnswersFirst keep finalized (overread, wire) h = tt
behind_send-AnswersFirst keep finalized (waiting, wire) h = tt

module _ (finalized : Bool) (calls : Calls) where
  respond-AnswersFirst :
      (keep : Bool) (r : Request) (body : BodyOut)
      → AnswersFirst (respond finalized calls keep r body)
  unfolding respond
  respond-AnswersFirst keep r body =
      behind_send-AnswersFirst keep finalized
        (connection_send_response keep (text_at r.mem r.version_str) r.status r.headers_out body
          calls.text_sends calls.body_sends calls.file_sent)
        (λ wire kept e. (
          r,
          body,
          subst (λ k. IsResponse k (text_at r.mem r.version_str) r.status r.headers_out body wire)
              kept
              (connection_send_response-IsResponse keep (text_at r.mem r.version_str) r.status
                r.headers_out body calls.text_sends calls.body_sends calls.file_sent wire e),
        ))

  finish-AnswersFirst :
      (r : Request) (body : BodyOut) → AnswersFirst (finish finalized calls r body)
  unfolding finish
  finish-AnswersFirst r body = elim (Bool-cases (r.status == http_status_close)) [
    | inl close ↦ rw close tt
    | inr open_still ↦ elim (Bool-cases (leb 300 r.status)) [
      | inr fine ↦ rw (open_still, fine) (respond-AnswersFirst r.keep_alive r body)
      | inl failure ↦ elim (Option-cases (special r body)) [
        | inl e ↦ rw (open_still, failure, e) tt
        | inr ((body', keep), e) ↦ rw (open_still, failure, e) (respond-AnswersFirst keep r body')
      ]
    ]
  ]

  module _ (matches : Bytes → Bytes → Bool) (default : Vhost) (vhosts : List Vhost)
      (handle : ℕ → Request → Body → Request × BodyOut) where
    process-AnswersFirst :
        (o : Option (Request × BodyOut))
        → AnswersFirst (process matches default vhosts handle finalized calls o)
    unfolding process
    process-AnswersFirst none = tt
    process-AnswersFirst (some (r, body)) = finish-AnswersFirst r body

    behind_receive-AnswersFirst :
        (d : Done)
        → AnswersFirst (behind_receive matches default vhosts handle finalized calls d.0 d.1 d.2)
    unfolding behind_receive
    behind_receive-AnswersFirst (Reply.returned b, r, body) = elim (Bool-cases (is_handled r)) [
      | inl handled ↦
          rw handled
            (process-AnswersFirst (connection_process_request matches default vhosts handle r body))
      | inr failed ↦ rw failed (finish-AnswersFirst r no_body)
    ]
    behind_receive-AnswersFirst (Reply.null_read, r, body) = tt
    behind_receive-AnswersFirst (Reply.aborted, r, body) = tt
    behind_receive-AnswersFirst (Reply.waiting, r, body) = tt

    -- If the loop goes on to a further request, then the peer got a whole response first: the text of
    -- one with a status line of the table and the header for a connection that is kept, and behind it
    -- the body from memory, or what `sendfile` has sent of the file; and in front of it nothing but
    -- what was sent of the answer to "Expect", where there was one.
    pub turn-Answered :
        (r : Request) (body : Body)
        → GoesOnAnswered
            (connection_gen_request
              (is_sent (nwrite continue_text calls.expect_sends).0)
              body
              r
              calls.line_events
              calls.header_events
              calls.body_events).1.continued
            calls.expect_sends
            (turn matches default vhosts handle finalized calls r body)
    unfolding turn
    turn-Answered r body =
        let answer = nwrite continue_text calls.expect_sends in
        let out =
          connection_gen_request (is_sent answer.0) body r calls.line_events calls.header_events
            calls.body_events in
        behind_continue-Answered calls.expect_sends out.1.continued answer _ refl
          (nwrite-Prefix continue_text calls.expect_sends) (behind_receive-AnswersFirst out)
