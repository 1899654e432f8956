-- ===== src/Connection/Send/Delivered.antt =====
-- What the peer gets of a response.
use xwp_server.Base.{
  ℕ, ◌+◌, ◌<◌, ◌≡◌, refl, sym, ap, ◌∙◌, subst, Bool, true, false, List, [], ◌∷◌, ◌++◌, length, take,
  Option, none, some, ◌==◌, ltb, if◌then◌else◌, take-append, append-take, take_all, arith,
  Bool-cases, inl, inr,
}
use xwp_server.CLib.{Bytes, codes, strncmp_eq}
use xwp_server.CLib.Decimal.{decimal}
use xwp_server.Connection.Response.Length.{Measured, response_length_iff}
use xwp_server.Connection.Response.{
  response_headers, printed, response_text, connection_response_headers_len,
}
use xwp_server.Connection.Send.{
  BodyOut, no_body, file_body, memory_body, body_bytes, Ending, returned, aborted, overread,
  waiting, send_memory, send_body, after_text, send_text, connection_send_response,
}
use xwp_server.Http.ErrorPage.{xwp_server_ver}
use xwp_server.Http.Headers.{Str, str, Header, http_header_set}
use xwp_server.Http.Status.{http_status_line}
use xwp_server.Http.Table.{found}
use xwp_server.Io.Written.{Prefix, nwrite-Prefix}
use xwp_server.Io.{Send, Outcome, wrote, blocked, nwrite}

Measured-set :
    (headers : List Header) (name : Bytes) (v : Str)
    → v.len ≡ length (printed v.text)
    → Measured headers
    → Measured (http_header_set headers name v)
unfolding http_header_set
Measured-set [] name v e m = (e, tt)
Measured-set (h ∷ headers) name v e m = elim (Bool-cases (strncmp_eq name h.name (length name))) [
  | inl same ↦ rw same (e, m.1)
  | inr new ↦ rw new (m.0, Measured-set headers name v e m.1)
]

pub Measured-response_headers :
    (keep_alive : Bool) (n : ℕ) (headers : List Header)
    → Measured headers
    → Measured (response_headers keep_alive n headers)
unfolding response_headers printed
Measured-response_headers keep_alive n headers m =
    let one =
      http_header_set headers (codes "Connection")
        (str (if keep_alive then codes "Keep-Alive" else codes "Close")) in
    let two = http_header_set one (codes "Server") (str xwp_server_ver) in
    Measured-set two (codes "Content-Length") (str (if ltb 0 n then decimal n else codes "0")) refl
      (Measured-set one (codes "Server") (str xwp_server_ver) refl (
        Measured-set headers (codes "Connection")
          (str (if keep_alive then codes "Keep-Alive" else codes "Close")) refl m))

-- What the result 1 means for a body.
abbrev pub IsSent : Bytes → BodyOut → Bytes → Type 0
IsSent text no_body wire = wire ≡ text
IsSent text (file_body s) wire = (k : ℕ) × (wire ≡ text ++ take k s)
IsSent text (memory_body s) wire = wire ≡ text ++ s

-- The result 1 says that the text and the body were sent, and any other that a beginning of both was.
abbrev pub Delivers : Bytes → BodyOut → Ending × Bytes → Type 0
Delivers text body (returned true, wire) = IsSent text body wire
Delivers text body (returned false, wire) = (n : ℕ) × (wire ≡ take n (text ++ body_bytes body))
Delivers text body (waiting, wire) = (n : ℕ) × (wire ≡ take n (text ++ body_bytes body))
Delivers text body (aborted, wire) = ⊥
Delivers text body (overread, wire) = ⊥

-- The body that is in memory has bytes.
abbrev pub HasBytes : BodyOut → Type 0
HasBytes (memory_body s) = 0 < length s
HasBytes _ = Unit {0}

module _ (text : Bytes) where
  send_memory-Delivers :
      (s : Bytes) (o : Outcome × Bytes)
      → 0 < length s
      → Prefix s o
      → Delivers text (memory_body s) (send_memory text s o)
  unfolding send_memory
  send_memory-Delivers s (wrote true, out) h p =
      let some_bytes : (length s == 0) ≡ false = ground arith in
      rw some_bytes (ap (λ l. text ++ l) p)
  send_memory-Delivers s (wrote false, out) h p =
      let some_bytes : (length s == 0) ≡ false = ground arith in
      rw some_bytes (length text + p.0, ap (λ l. text ++ l) p.2 ∙ append-take text s p.0)
  send_memory-Delivers s (blocked, out) h p =
      let some_bytes : (length s == 0) ≡ false = ground arith in
      rw some_bytes (length text + p.0, ap (λ l. text ++ l) p.2 ∙ append-take text s p.0)

  send_body-Delivers :
      (body : BodyOut) (sends : List Send) (file_sent : Option ℕ)
      → HasBytes body
      → Delivers text body (send_body body sends file_sent text)
  unfolding send_body
  send_body-Delivers no_body sends file_sent h = refl
  send_body-Delivers (file_body s) sends none h = (
    length text,
    sym (
        take-append text s (length text) (omega arith) ∙ take_all text (length text) (omega arith)),
  )
  send_body-Delivers (file_body s) sends (some k) h = (k, refl)
  send_body-Delivers (memory_body s) sends file_sent h =
      send_memory-Delivers s (nwrite s sends) h (nwrite-Prefix s sends)

  after_text-Delivers :
      (body : BodyOut) (sends : List Send) (file_sent : Option ℕ) (o : Outcome × Bytes)
      → HasBytes body
      → Prefix text o
      → Delivers text body (after_text body sends file_sent o)
  unfolding after_text
  after_text-Delivers body sends file_sent (wrote true, out) h p =
      subst (λ t. Delivers text body (send_body body sends file_sent t)) (sym p)
        (send_body-Delivers body sends file_sent h)
  after_text-Delivers body sends file_sent (wrote false, out) h p =
      (p.0, p.2 ∙ sym (take-append text (body_bytes body) p.0 (omega (arith, p.1))))
  after_text-Delivers body sends file_sent (blocked, out) h p =
      (p.0, p.2 ∙ sym (take-append text (body_bytes body) p.0 (omega (arith, p.1))))

-- For a status with a status line, a version that is printed with eight bytes, and headers whose values
-- have their length with them: no `assert` fails, and if the result is 1 the peer gets the text of the
-- response and behind it the body from memory, or as much of the file as `sendfile` has sent; after any
-- other result it got a beginning of the text and the body.
pub connection_send_response-Delivers :
    (keep_alive : Bool) (version : Option Bytes) (status : ℕ) (line : Bytes) (headers : List Header)
    (body : BodyOut) (text_sends body_sends : List Send) (file_sent : Option ℕ)
    → http_status_line status ≡ found line
    → length (printed version) ≡ 8
    → Measured headers
    → HasBytes body
    → Delivers
        (response_text version line
          (response_headers keep_alive (length (body_bytes body)) headers))
        body
        (connection_send_response keep_alive version status headers body text_sends body_sends
          file_sent)
unfolding connection_send_response
connection_send_response-Delivers keep_alive version status line headers body text_sends body_sends
      file_sent e v m h =
    let set = response_headers keep_alive (length (body_bytes body)) headers in
    let fits =
      (response_length_iff version line set
          (Measured-response_headers keep_alive (length (body_bytes body)) headers m)).1
        v in
    let text = response_text version line set in
    let eq : (length text == connection_response_headers_len line set) ≡ true = ground arith in
    rw (e, connection_send_response)
      (rw (eq, send_text)
        (after_text-Delivers text body body_sends file_sent (nwrite text text_sends) h
          (nwrite-Prefix text text_sends)))
