-- ===== src/Process/Pieces/Accepted.antt =====
-- A request line of a client, however it arrives.
use xwp_server.Base.{
  sym, ℕ, suc, ◌+◌, ◌-◌, ◌≤◌, ◌<◌, ◌≡◌, refl, ap, ◌∙◌, true, false, ◌∷◌, ◌++◌, length,
  length-append, arith, some,
}
use xwp_server.CLib.{Bytes, codes, isspace}
use xwp_server.Memory.Stands.{
  Stands, AllAre, Stands-append, Stands-slice, Stands-AllAre, AllAre-map,
}
use xwp_server.Memory.{Mem, slice, Slice}
use xwp_server.Parse.RequestLine.Accepts.{IsRequestLine, http_parse_request_line_path, path_kept}
use xwp_server.Parse.RequestLine.{http_parse_request_line, method_of}
use xwp_server.Parse.Token.{ends_token}
use xwp_server.Parse.Url.Origin.{is_path_byte, is_query_byte}
use xwp_server.Parse.Url.{Code, parse_done}
use xwp_server.Request.{Buf, Method, Request, http_11}

-- `method /path HTTP/1.1`, with the line's end.
abbrev pub behind_path : Bytes
behind_path = codes " HTTP/1.1\r\n"

abbrev pub request_text : Bytes → Bytes → Bytes
request_text method path = method ++ (b' ' ∷ b'/' ∷ (path ++ behind_path))

path_token : (c : ℕ) → is_path_byte c ≡ true → ends_token isspace c ≡ false
unfolding is_path_byte is_query_byte isspace
path_token c h = ground arith

slash_token : ends_token isspace b'/' ≡ false
unfolding isspace
slash_token = refl

version_tokens : AllAre (ends_token isspace) false (codes "HTTP/1.1")
unfolding isspace
version_tokens = (refl, (refl, (refl, (refl, (refl, (refl, (refl, (refl, tt))))))))

-- Where such a text stands, the parser finds a request line.
module _ (m : Mem) (p end : ℕ) (method path : Bytes) (verb : Method) where
  abbrev space : ℕ
  space = p + length method

  abbrev path_end : ℕ
  path_end = space + 1 + suc (length path)

  pub request_text-IsRequestLine :
      Stands m p (request_text method path)
      → 0 < length method
      → AllAre (ends_token isspace) false method
      → AllAre is_path_byte true path
      → method_of method (length method) ≡ some verb
      → p + length (request_text method path) ≤ end
      → IsRequestLine m p space path_end (path_end + 9) end verb
  request_text-IsRequestLine h n solid bytes known fits =
      let whole = length-append method (b' ' ∷ b'/' ∷ (path ++ behind_path)) in
      let half = length-append path behind_path in
      let first = Stands-append m p method (b' ' ∷ b'/' ∷ (path ++ behind_path)) h in
      let second = Stands-append m (space + 1) (b'/' ∷ path) behind_path first.1.1 in
      let third = Stands-append m (path_end + 1) (codes "HTTP/1.1") (codes "\r\n") second.1.1 in
      let at_carriage : path_end + 9 ≡ path_end + 1 + 8 = omega arith in
      let at_newline : path_end + 9 + 1 ≡ path_end + 1 + 8 + 1 = omega arith in
      let size : space - p ≡ length method = omega arith in
      record {
        method_some = omega arith;
        url_some = omega arith;
        version_len = refl;
        fits = omega arith;
        solid_method =
            λ i l k. Stands-AllAre m p (ends_token isspace) false method first.0 solid i l k;
        solid_url = Stands-AllAre m (space + 1) (ends_token isspace) false (b'/' ∷ path) second.0 (
          slash_token,
          AllAre-map is_path_byte (ends_token isspace) true false path path_token bytes,
        );
        solid_version = λ i l k.
            Stands-AllAre m (path_end + 1) (ends_token isspace) false (codes "HTTP/1.1") third.0
              version_tokens i l (omega arith);
        first_space = first.1.0;
        second_space = second.1.0;
        carriage = ap m at_carriage ∙ third.1.0;
        newline = ap m at_newline ∙ third.1.1.0;
        version_text = Stands-slice m (path_end + 1) (codes "HTTP/1.1") third.0;
        method_text = rw (size, Stands-slice m p method first.0) known;
      }

-- What the parser says of such a text: all of the line is read, and the parts are stored.
abbrev pub Reads : Request → Buf → Bytes → Bytes → Method → Code × Request × Buf → Type 0
Reads r b method path verb (code, r', b') =
    let url : Slice = record { at = b.pos + length method + 1; len = suc (length path) } in
    let behind = b.pos + length (request_text method path) in
    (code ≡ parse_done)
    × (r'.method ≡ verb)
    × (r'.version ≡ http_11)
    × (r'.url.path ≡ some url)
    × (r'.url.port ≡ 80)
    × (slice r'.mem url.at url.len ≡ b'/' ∷ path)
    × (b' ≡ record b { pos = behind })
    × ((i : ℕ) → behind ≤ i → r'.mem i ≡ r.mem i)
    × (r'.headers_in ≡ r.headers_in)
    × (r'.conf ≡ r.conf)
    × (r'.status ≡ r.status)

pub http_parse_request_line-Reads :
    (r : Request) (b : Buf) (method path : Bytes) (verb : Method)
    → Stands r.mem b.pos (request_text method path)
    → 0 < length method
    → AllAre (ends_token isspace) false method
    → AllAre is_path_byte true path
    → method_of method (length method) ≡ some verb
    → b.pos + length (request_text method path) ≤ b.end
    → Reads r b method path verb (http_parse_request_line r b)
http_parse_request_line-Reads r b method path verb h n solid bytes known fits =
    let p = b.pos in
    let a = p + length method in
    let c = a + 1 + suc (length path) in
    let line =
      request_text-IsRequestLine r.mem p b.end method path verb h n solid bytes known fits in
    let whole = length-append method (b' ' ∷ b'/' ∷ (path ++ behind_path)) in
    let half = length-append path behind_path in
    let first = Stands-append r.mem p method (b' ' ∷ b'/' ∷ (path ++ behind_path)) h in
    let url = (Stands-append r.mem (a + 1) (b'/' ∷ path) behind_path first.1.1).0 in
    let slash = first.1.1.0 in
    let path_bytes = λ (i : ℕ) (l : a + 1 < i) (k : i < c).
      Stands-AllAre r.mem (a + 1 + 1) is_path_byte true path url.1 bytes i (omega arith)
        (omega arith) in
    let read =
      http_parse_request_line_path r.mem p a c (c + 9) b.end verb line r b slash path_bytes in
    let kept = path_kept r.mem p a c (c + 9) b.end verb line r b slash path_bytes in
    let size : c - (a + 1) ≡ length (b'/' ∷ path) = omega arith in
    let behind : c + 9 + 1 + 1 ≡ p + length (request_text method path) = omega arith in
    let text : slice r.mem (a + 1) (c - (a + 1)) ≡ b'/' ∷ path =
      ap (slice r.mem (a + 1)) size ∙ Stands-slice r.mem (a + 1) (b'/' ∷ path) url in
    (
      read.0,
      read.1,
      read.2,
      read.3 ∙ ap (λ n. some (record { at = a + 1; len = n })) size,
      read.4,
      ap (slice (http_parse_request_line r b).1.mem (a + 1)) (sym size) ∙ kept.0 ∙ text,
      kept.1 ∙ ap (λ n. record b { pos = n }) behind,
      λ i l. kept.2 i (omega arith),
      kept.3,
      kept.4,
      kept.5,
    )
