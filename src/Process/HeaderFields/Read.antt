-- ===== src/Process/HeaderFields/Read.antt =====
-- What `http_process_header_line` does with header lines that stand in the buffer.
use xwp_server.Base.{
  ℕ, ◌+◌, ◌^◌, ◌≤◌, ◌<◌, ◌≡◌, refl, ap, ◌∙◌, Bool, true, false, List, ◌++◌, length, length-append,
  arith, none, ℤ, ◌⊎◌,
}
use xwp_server.CLib.{Bytes}
use xwp_server.Http.Headers.{value, http_header_str, http_header_int}
use xwp_server.Memory.Stands.{Stands, Stands-append}
use xwp_server.Memory.{Mem}
use xwp_server.Parse.HeaderLine.Block.{
  set_all, http_parse_header_line-IsBlock, http_parse_header_line_kept,
}
use xwp_server.Parse.HeaderLine.{http_parse_header_line}
use xwp_server.Parse.Url.{Code, parse_done}
use xwp_server.Process.HeaderFields.{
  header_content_len, header_keepalive, header_expect, keep_alive_of, not_negative, answer_expect,
  request_header_fields, header_fields, http_process_header_line,
}
use xwp_server.Process.Pieces.Fields.{block_text, AreFields, block_text-IsBlock}
use xwp_server.Process.Pieces.Joined.{Going}
use xwp_server.Process.{
  Recv, Reply, returned, after_parse, store_buf, line_round, line_wait, line_loop, request_phase,
  header_parser,
}
use xwp_server.Request.{Buf, Request, stat_header_line}

after_done :
    (code : Code) (r : Request) (b : Buf) (go_on : Going)
    → code ≡ parse_done
    → after_parse code false r b go_on ≡ (returned true, record r { header_buf = b })
unfolding after_parse store_buf
after_done code r b go_on e = rw (e, after_parse) refl

-- The header lines that stand in the buffer are all read, and what follows are the request's fields.
module _ (r : Request) (fields : List (Bytes × Bytes)) (rest : Bytes)
    (stands : Stands r.mem r.header_buf.pos (block_text fields ++ rest)) (ok : AreFields fields)
    (full : r.header_buf.last ≡ r.header_buf.pos + length (block_text fields ++ rest))
    (fits : r.header_buf.last ≤ r.header_buf.end) (small : r.header_buf.end < 2 ^ 64) where
  abbrev b : Buf
  b = r.header_buf

  abbrev stop : ℕ
  stop = b.pos + length (block_text fields)

  -- The memory behind the parser.
  abbrev read_mem : Mem
  read_mem = (http_parse_header_line r.mem b r.headers_in).1

  abbrev pub read_request : Request
  read_request = record r {
    state = stat_header_line;
    mem = read_mem;
    headers_in = set_all r.headers_in fields;
    header_buf = record b { pos = stop };
  }

  stop_le : stop ≤ b.last
  stop_le = omega (arith, length-append (block_text fields) rest)

  pub block_kept :
      ((http_parse_header_line r.mem b r.headers_in).2 ≡ record b { pos = stop })
      × ((i : ℕ) → (i < b.pos) ⊎ (stop ≤ i) → read_mem i ≡ r.mem i)
  block_kept =
      let parts = Stands-append r.mem b.pos (block_text fields) rest stands in
      http_parse_header_line_kept r.mem b r.headers_in fields stop
        (block_text-IsBlock r.mem b.pos b.end fields parts.0 ok (omega (arith, stop_le)) small)
        stop_le

  pub http_process_header_line_lem :
      (can_send : Bool) (events : List Recv)
      → http_process_header_line request_phase can_send r events
        ≡ request_header_fields can_send read_request
  unfolding http_process_header_line line_loop line_round header_parser header_fields
  http_process_header_line_lem can_send events =
      let parts = Stands-append r.mem b.pos (block_text fields) rest stands in
      let read =
        http_parse_header_line-IsBlock r.mem b r.headers_in fields stop
          (block_text-IsBlock r.mem b.pos b.end fields parts.0 ok (omega (arith, stop_le)) small)
          stop_le in
      let out = http_parse_header_line r.mem b r.headers_in in
      let started : Request = record r { state = stat_header_line } in
      let parsed : Request = record started { mem = out.1; headers_in = out.3 } in
      ap (λ (x : Reply × Request). header_fields request_phase can_send x.0 x.1)
        (after_done out.0 parsed out.2
          (λ g r b. line_wait (header_parser request_phase) events g r b) read.0)
      ∙ ap
          (λ h.
            request_header_fields can_send
              (record started { mem = out.1; headers_in = h; header_buf = out.2 }))
          read.2
      ∙ ap
          (λ b. request_header_fields can_send (record started {
            mem = out.1;
            headers_in = set_all r.headers_in fields;
            header_buf = b;
          }))
          block_kept.0

-- Without "Expect", and with a "Content-Length" that can be read, or none.
pub fields_taken :
    (can_send : Bool) (r : Request) (n : ℤ)
    → http_header_int r.headers_in header_content_len ≡ value n
    → http_header_str r.headers_in header_expect ≡ none
    → request_header_fields can_send r ≡ (
      returned true,
      record r {
        in_content_len = not_negative n;
        keep_alive = keep_alive_of r.version (http_header_str r.headers_in header_keepalive);
      },
    )
unfolding request_header_fields answer_expect
fields_taken can_send r n e f = rw (e, request_header_fields, f, answer_expect) refl
