-- ===== src/Process/Body/There.antt =====
-- A body that has been received with the headers.
use xwp_server.Base.{
  ℕ, zero, suc, ◌-◌, ◌≤◌, ◌≡◌, refl, true, false, List, some, ◌==◌, ltb, leb, pos, arith,
}
use xwp_server.Process.Body.{
  is_head, body_buf, length_round, process_length, http_process_content_body,
}
use xwp_server.Process.{Recv, returned}
use xwp_server.Request.{Buf, Body, Request, stat_content_body}

-- The body that is recorded: none of its bytes, or a part of the header buffer.
abbrev pub recorded : Buf → ℕ → Body → Body
recorded h zero given = given
recorded h (suc k) given = record given {
  content = some (record h { start = h.pos });
  content_len = pos (suc k);
}

-- `recv` is not called for a body that is there.
pub http_process_content_body_there :
    (r : Request) (given : Body) (n : ℕ) (events : List Recv)
    → is_head r.method ≡ false
    → n ≤ r.header_buf.last - r.header_buf.pos
    → r.header_buf.last ≤ r.header_buf.end
    → n ≤ r.conf.max_content_len
    → http_process_content_body (pos n) r given events
      ≡ (returned true, record r { state = stat_content_body }, recorded r.header_buf n given)
unfolding http_process_content_body process_length body_buf length_round
http_process_content_body_there r given zero events e there fits small = rw e refl
http_process_content_body_there r given (suc k) events e there fits small =
    let room : ltb (r.header_buf.end - r.header_buf.pos) (suc k) ≡ false = ground arith in
    let allowed : ltb r.conf.max_content_len (suc k) ≡ false = ground arith in
    let enough : leb (suc k) (r.header_buf.last - r.header_buf.pos) ≡ true = ground arith in
    let nonzero : (suc k == 0) ≡ false = ground arith in rw (e, nonzero, allowed, room, enough) refl
