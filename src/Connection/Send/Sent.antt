-- ===== src/Connection/Send/Sent.antt =====
-- The result 1 of sending a response, whatever the headers and the version.
use xwp_server.Base.{
  ℕ, ◌≡◌, refl, sym, ap, ◌++◌, subst, Bool, true, false, List, length, Option, none, some, ◌==◌,
  ◌⊎◌, inl, inr, Bool-cases,
}
use xwp_server.CLib.{Bytes}
use xwp_server.Connection.Response.{
  response_headers, response_text, connection_response_headers_len,
}
use xwp_server.Connection.Send.Delivered.{IsSent}
use xwp_server.Connection.Send.{
  BodyOut, no_body, file_body, memory_body, body_bytes, Ending, returned, aborted, overread,
  waiting, send_memory, send_body, after_text, send_text, connection_send_response,
}
use xwp_server.Http.Headers.{Header}
use xwp_server.Http.Status.{http_status_line}
use xwp_server.Http.Table.{Lookup, found, missing, out_of_range}
use xwp_server.Io.Written.{Prefix, nwrite-Prefix}
use xwp_server.Io.{Send, Outcome, wrote, blocked, nwrite}

-- What the result 1 says; the others are left open.
abbrev IsSentIf : (Bytes → Type 0) → Ending × Bytes → Type 0
IsSentIf goal (returned true, wire) = goal wire
IsSentIf goal _ = Unit {0}

send_memory-IsSentIf :
    (text s : Bytes) (o : Outcome × Bytes)
    → Prefix s o
    → IsSentIf (IsSent text (memory_body s)) (send_memory text s o)
unfolding send_memory
send_memory-IsSentIf text s (wrote true, out) p = elim (Bool-cases (length s == 0)) [
  | inl empty ↦ rw empty tt
  | inr some_bytes ↦ rw some_bytes (ap (λ l. text ++ l) p)
]
send_memory-IsSentIf text s (wrote false, out) p = elim (Bool-cases (length s == 0)) [
  | inl empty ↦ rw empty tt
  | inr some_bytes ↦ rw some_bytes tt
]
send_memory-IsSentIf text s (blocked, out) p = elim (Bool-cases (length s == 0)) [
  | inl empty ↦ rw empty tt
  | inr some_bytes ↦ rw some_bytes tt
]

send_body-IsSentIf :
    (text : Bytes) (body : BodyOut) (sends : List Send) (file_sent : Option ℕ)
    → IsSentIf (IsSent text body) (send_body body sends file_sent text)
unfolding send_body
send_body-IsSentIf text no_body sends file_sent = refl
send_body-IsSentIf text (file_body s) sends none = tt
send_body-IsSentIf text (file_body s) sends (some k) = (k, refl)
send_body-IsSentIf text (memory_body s) sends file_sent =
    send_memory-IsSentIf text s (nwrite s sends) (nwrite-Prefix s sends)

after_text-IsSentIf :
    (text : Bytes) (body : BodyOut) (sends : List Send) (file_sent : Option ℕ) (o : Outcome × Bytes)
    → Prefix text o
    → IsSentIf (IsSent text body) (after_text body sends file_sent o)
unfolding after_text
after_text-IsSentIf text body sends file_sent (wrote true, out) p =
    subst (λ t. IsSentIf (IsSent text body) (send_body body sends file_sent t)) (sym p)
      (send_body-IsSentIf text body sends file_sent)
after_text-IsSentIf text body sends file_sent (wrote false, out) p = tt
after_text-IsSentIf text body sends file_sent (blocked, out) p = tt

Lookup-cases {ℓ} :
    {A : Type ℓ} (l : Lookup A) → ((x : A) × (l ≡ found x)) ⊎ ((l ≡ missing) ⊎ (l ≡ out_of_range))
Lookup-cases (found x) = inl (x, refl)
Lookup-cases missing = inr (inl refl)
Lookup-cases out_of_range = inr (inr refl)

-- A response with some line of the table was sent.
abbrev pub IsResponse : Bool → Option Bytes → ℕ → List Header → BodyOut → Bytes → Type 0
IsResponse keep_alive version status headers body wire =
    (line : Bytes) × (http_status_line status ≡ found line)
    × IsSent
        (response_text version line
          (response_headers keep_alive (length (body_bytes body)) headers))
        body wire

module _ (keep_alive : Bool) (version : Option Bytes) (status : ℕ) (headers : List Header)
    (body : BodyOut) where
  with_line :
      (line : Bytes) (d : Ending × Bytes)
      → http_status_line status ≡ found line
      → IsSentIf
          (IsSent
            (response_text version line
              (response_headers keep_alive (length (body_bytes body)) headers))
            body)
          d
      → IsSentIf (IsResponse keep_alive version status headers body) d
  with_line line (returned true, wire) e h = (line, e, h)
  with_line line (returned false, wire) e h = tt
  with_line line (aborted, wire) e h = tt
  with_line line (overread, wire) e h = tt
  with_line line (waiting, wire) e h = tt

  send_text-IsSentIf :
      (line : Bytes) (text_sends body_sends : List Send) (file_sent : Option ℕ)
      → http_status_line status ≡ found line
      → IsSentIf (IsResponse keep_alive version status headers body) (
          send_text
            (response_text version line
              (response_headers keep_alive (length (body_bytes body)) headers))
            line
            (response_headers keep_alive (length (body_bytes body)) headers)
            body
            text_sends
            body_sends
            file_sent)
  unfolding send_text
  send_text-IsSentIf line text_sends body_sends file_sent e =
      let set = response_headers keep_alive (length (body_bytes body)) headers in
      let text = response_text version line set in
      elim (Bool-cases (length text == connection_response_headers_len line set)) [
        | inl fits ↦ rw fits (
            with_line line (after_text body body_sends file_sent (nwrite text text_sends)) e (
              after_text-IsSentIf text body body_sends file_sent (nwrite text text_sends)
                (nwrite-Prefix text text_sends)))
        | inr differs ↦ rw differs tt
      ]

  connection_send_response-IsSentIf :
      (text_sends body_sends : List Send) (file_sent : Option ℕ)
      → IsSentIf (IsResponse keep_alive version status headers body) (
          connection_send_response keep_alive version status headers body text_sends body_sends
            file_sent)
  unfolding connection_send_response
  connection_send_response-IsSentIf text_sends body_sends file_sent =
      elim (Lookup-cases (http_status_line status)) [
        | inl (line, e) ↦
            rw (e, connection_send_response)
              (send_text-IsSentIf line text_sends body_sends file_sent e)
        | inr (inl e) ↦ rw (e, connection_send_response) tt
        | inr (inr e) ↦ rw (e, connection_send_response) tt
      ]

  -- Whatever the version, the status and the headers are: where the result is 1, the peer got the text
  -- of a response with a line of the table, and behind it the body or what `sendfile` has sent.
  pub connection_send_response-IsResponse :
      (text_sends body_sends : List Send) (file_sent : Option ℕ) (wire : Bytes)
      → connection_send_response keep_alive version status headers body text_sends body_sends
          file_sent
        ≡ (returned true, wire)
      → IsResponse keep_alive version status headers body wire
  connection_send_response-IsResponse text_sends body_sends file_sent wire e =
      subst (IsSentIf (IsResponse keep_alive version status headers body)) e
        (connection_send_response-IsSentIf text_sends body_sends file_sent)
