-- ===== src/Connection/Receive/Handled.antt =====
-- Which requests are handled.
use xwp_server.Base.{
  ◌≡◌, refl, true, false, List, Option, none, some, arith, inl, inr, ◌⊎◌, Bool-cases, Option-cases,
}
use xwp_server.Connection.Receive.{
  receive_body, receive_headers, connection_gen_request, is_handled,
}
use xwp_server.Http.Headers.{Str, Access, value, http_header_int}
use xwp_server.Process.Body.Refusals.{IsRefused, content_body-IsRefused}
use xwp_server.Process.Body.{Done}
use xwp_server.Process.HeaderFields.{
  expects_continue, answer_expect, request_header_fields, header_fields, header_content_len,
  http_process_header_line,
}
use xwp_server.Process.Replies.{Explained, process_line-Explained, line_loop-Explained}
use xwp_server.Process.{
  Recv, Reply, returned, null_read, aborted, waiting, request_phase, http_process_request_line,
  header_parser, line_loop,
}
use xwp_server.Request.{Body, Request, stat_header_line}

answer_expect-Explained : (h : Option Str) (r : Request) → Explained (answer_expect true h r)
unfolding answer_expect
answer_expect-Explained none r = tt
answer_expect-Explained (some h) r = elim (Option-cases h.text) [
  | inl e ↦ rw (e, answer_expect) tt
  | inr (s, e) ↦ elim (Bool-cases (expects_continue s)) [
    | inl asks ↦ rw (e, answer_expect, asks) tt
    | inr asks ↦ rw (e, answer_expect, asks) tt
  ]
]

Access-cases {ℓ} : {A : Type ℓ} (a : Access A) → (a ≡ Access.null_read) ⊎ ((x : A) × (a ≡ value x))
Access-cases Access.null_read = inl refl
Access-cases (value x) = inr (x, refl)

request_header_fields-Explained : (r : Request) → Explained (request_header_fields true r)
unfolding request_header_fields
request_header_fields-Explained r =
    elim (Access-cases (http_header_int r.headers_in header_content_len)) [
      | inl e ↦ rw (e, request_header_fields) tt
      | inr (n, e) ↦ rw (e, request_header_fields) (answer_expect-Explained _ _)
    ]

header_fields-Explained :
    (reply : Reply) (r : Request)
    → Explained (reply, r)
    → Explained (header_fields request_phase true reply r)
unfolding header_fields
header_fields-Explained (returned true) r h = request_header_fields-Explained r
header_fields-Explained (returned false) r h = h
header_fields-Explained null_read r h = tt
header_fields-Explained aborted r h = tt
header_fields-Explained waiting r h = tt

process_header_line-Explained :
    (r : Request) (events : List Recv)
    → Explained (http_process_header_line request_phase true r events)
unfolding http_process_header_line
process_header_line-Explained r events =
    let r' : Request = record r { state = stat_header_line } in
    header_fields-Explained (line_loop (header_parser request_phase) events r').0
      (line_loop (header_parser request_phase) events r').1
      (line_loop-Explained (header_parser request_phase) events r')

module _ (body : Body) where
  receive_body-IsRefused :
      (events : List Recv) (reply : Reply) (r : Request)
      → Explained (reply, r)
      → IsRefused (receive_body true body events reply r)
  unfolding receive_body
  receive_body-IsRefused events (returned true) r h =
      content_body-IsRefused r.in_content_len r body events
  receive_body-IsRefused events (returned false) r h = h
  receive_body-IsRefused events null_read r h = tt
  receive_body-IsRefused events aborted r h = tt
  receive_body-IsRefused events waiting r h = tt

  receive_headers-IsRefused :
      (header_events body_events : List Recv) (reply : Reply) (r : Request)
      → Explained (reply, r)
      → IsRefused (receive_headers true body header_events body_events reply r)
  unfolding receive_headers
  receive_headers-IsRefused header_events body_events (returned true) r h =
      receive_body-IsRefused body_events
        (http_process_header_line request_phase true r header_events).0
        (http_process_header_line request_phase true r header_events).1
        (process_header_line-Explained r header_events)
  receive_headers-IsRefused header_events body_events (returned false) r h = h
  receive_headers-IsRefused header_events body_events null_read r h = tt
  receive_headers-IsRefused header_events body_events aborted r h = tt
  receive_headers-IsRefused header_events body_events waiting r h = tt

  refused-false : (d : Done) → IsRefused d → d.0 ≡ returned false → is_handled d.1 ≡ false
  unfolding is_handled
  refused-false (returned true, r, b) h e = cc
  refused-false (returned false, r, b) h e = ground arith
  refused-false (null_read, r, b) h e = cc
  refused-false (aborted, r, b) h e = cc
  refused-false (waiting, r, b) h e = cc

  -- Where "Expect" is answered, a request whose line, headers or body were not received whole is not
  -- handled: its status is then one of a failure.
  pub connection_gen_request_refused :
      (r : Request) (line_events header_events body_events : List Recv)
      → (connection_gen_request true body r line_events header_events body_events).0
        ≡ returned false
      → is_handled (connection_gen_request true body r line_events header_events body_events).1
        ≡ false
  unfolding connection_gen_request
  connection_gen_request_refused r line_events header_events body_events e =
      refused-false (connection_gen_request true body r line_events header_events body_events)
        (receive_headers-IsRefused header_events body_events
          (http_process_request_line r line_events).0 (http_process_request_line r line_events).1
          (process_line-Explained line_events r).0)
        e
