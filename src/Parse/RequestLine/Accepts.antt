-- ===== src/Parse/RequestLine/Accepts.antt =====
-- The request lines that a client sends are accepted.
use xwp_server.Base.{
  ℕ, suc, ◌+◌, ◌-◌, ◌≤◌, ◌<◌, ◌≡◌, ◌≢◌, refl, sym, ◌∙◌, ap, true, false, not, some, arith,
}
use xwp_server.CLib.{codes, isspace, agree, strcmp_eq}
use xwp_server.Memory.Walk.{seek_at, write_ne, slice-cong}
use xwp_server.Memory.{Mem, write, seek, slice}
use xwp_server.Parse.RequestLine.{
  skip_space, behind_http, version_of, method_of, url_field, method_field, version_field,
  request_fields, request_tokens, http_parse_request_line,
}
use xwp_server.Parse.Token.Laws.{get_token_at}
use xwp_server.Parse.Token.{find_next_eol, get_token, ends_line, ends_token}
use xwp_server.Parse.Url.Origin.{is_path_byte, http_parse_url_path}
use xwp_server.Parse.Url.{parse_done, http_parse_url}
use xwp_server.Request.{Buf, Method, http_11, Request}

-- The line `method url HTTP/1.1\r\n` in a buffer that ends at `end`: the method from `p` to the space
-- at `a`, the URL from there to the space at `c`, and the version up to the carriage return at `d`.
pub record IsRequestLine (m : Mem) (p a c d end : ℕ) (verb : Method) : Type 0 where
  pub method_some : p < a
  pub url_some : a + 1 < c
  pub version_len : d ≡ c + 9
  pub fits : d + 1 ≤ end
  pub solid_method : (i : ℕ) → p ≤ i → i < a → ends_token isspace (m i) ≡ false
  pub solid_url : (i : ℕ) → a + 1 ≤ i → i < c → ends_token isspace (m i) ≡ false
  pub solid_version : (i : ℕ) → c + 1 ≤ i → i < d → ends_token isspace (m i) ≡ false
  pub first_space : m a ≡ b' '
  pub second_space : m c ≡ b' '
  pub carriage : m d ≡ b'\r'
  pub newline : m (d + 1) ≡ b'\n'
  pub version_text : slice m (c + 1) 8 ≡ codes "HTTP/1.1"
  pub method_text : method_of (slice m p (a - p)) (a - p) ≡ some verb

-- A byte that ends no token ends no line and is no space.
solid_line : (c : ℕ) → ends_token isspace c ≡ false → ends_line c ≡ false
unfolding isspace
solid_line c h = ground arith

solid_space : (c : ℕ) → ends_token isspace c ≡ false → isspace c ≡ false
solid_space c h = ground arith

solid_nonzero : (c : ℕ) → ends_token isspace c ≡ false → c ≢ 0
solid_nonzero c h = ground arith

behind_one : behind_http (codes "HTTP/1.1") ≡ some (codes "1.1")
unfolding behind_http agree
behind_one = refl

number_one : version_of (codes "1.1") ≡ some http_11
unfolding version_of strcmp_eq
number_one = refl

module _ (m : Mem) (p a c d end : ℕ) (verb : Method) (line : IsRequestLine m p a c d end verb) where
  open line use {
    method_some, url_some, version_len, fits, solid_method, solid_url, solid_version, first_space,
    second_space, carriage, newline, version_text, method_text,
  }

  plain : (i : ℕ) → p ≤ i → i < d + 1 → ends_line (m i) ≡ false
  unfolding isspace
  plain i l h =
      ground
        (arith, solid_method i, solid_url i, solid_version i, first_space, second_space, carriage)

  eol_found : find_next_eol m p (end - p) ≡ some (d + 1)
  unfolding find_next_eol
  eol_found = rw (at_eol, newline)
    where
      at_eol : seek ends_line m p (end - p) ≡ d + 1
      at_eol =
          seek_at ends_line m p (end - p) (d + 1) (omega arith) (omega arith) plain (rw newline)

  stays : (n : ℕ) → skip_space m p n ≡ p
  unfolding skip_space
  stays n =
      seek_at (λ c. not (isspace c)) m p n p (omega arith) (omega arith)
        (λ i l h. absurd (omega arith))
        (ap not (solid_space (m p) (solid_method p (omega arith) method_some)))

  abbrev m1 : Mem
  m1 = write m a 0

  abbrev m2 : Mem
  m2 = write m1 c 0

  abbrev m3 : Mem
  m3 = write m2 d 0

  m1_ne : (i : ℕ) → i ≢ a → m1 i ≡ m i
  m1_ne i h = write_ne m a 0 i h

  m2_ne : (i : ℕ) → i ≢ a → i ≢ c → m2 i ≡ m i
  m2_ne i h k = write_ne m1 c 0 i k ∙ m1_ne i h

  m3_ne : (i : ℕ) → i ≢ a → i ≢ c → i ≢ d → m3 i ≡ m i
  m3_ne i h k l = write_ne m2 d 0 i l ∙ m2_ne i h k

  token_method :
      get_token isspace m p (end - p)
      ≡ some (record { token = record { at = p; len = a - p }; mem = m1; rest = a + 1 })
  token_method =
      get_token_at isspace m p (end - p) p a (omega arith) method_some (omega arith)
        (λ i l h. absurd (omega arith))
        (solid_nonzero (m p) (solid_method p (omega arith) method_some)) solid_method
        (rw first_space (unfold isspace in refl))

  token_url :
      get_token isspace m1 (a + 1) (end - (a + 1))
      ≡ some (record { token = record { at = a + 1; len = c - (a + 1) }; mem = m2; rest = c + 1 })
  token_url =
      get_token_at isspace m1 (a + 1) (end - (a + 1)) (a + 1) c (omega arith) url_some (omega arith)
        (λ i l h. absurd (omega arith))
        (solid_nonzero (m1 (a + 1)) (solid (a + 1) (omega arith) url_some)) solid
        (ap (ends_token isspace) (m1_ne c (omega arith) ∙ second_space) ∙ unfold isspace in refl)
    where
      solid : (i : ℕ) → a + 1 ≤ i → i < c → ends_token isspace (m1 i) ≡ false
      solid i l h = ap (ends_token isspace) (m1_ne i (omega arith)) ∙ solid_url i l h

  token_version :
      get_token isspace m2 (c + 1) (end - (c + 1))
      ≡ some (record { token = record { at = c + 1; len = d - (c + 1) }; mem = m3; rest = d + 1 })
  token_version =
      get_token_at isspace m2 (c + 1) (end - (c + 1)) (c + 1) d (omega arith) (omega arith)
        (omega arith) (λ i l h. absurd (omega arith))
        (solid_nonzero (m2 (c + 1)) (solid (c + 1) (omega arith) (omega arith))) solid
        (ap (ends_token isspace) (m2_ne d (omega arith) (omega arith) ∙ carriage)
          ∙ unfold isspace in refl)
    where
      solid : (i : ℕ) → c + 1 ≤ i → i < d → ends_token isspace (m2 i) ≡ false
      solid i l h =
          ap (ends_token isspace) (m2_ne i (omega arith) (omega arith)) ∙ solid_version i l h

  version_bytes : slice m3 (c + 1) (d - (c + 1)) ≡ codes "HTTP/1.1"
  version_bytes =
      let eight : d - (c + 1) ≡ 8 = omega arith in
      ap (slice m3 (c + 1)) eight
      ∙ slice-cong m3 m (c + 1) 8 (λ i l h. m3_ne i (omega arith) (omega arith) (omega arith))
      ∙ version_text

  method_bytes : slice m3 p (a - p) ≡ slice m p (a - p)
  method_bytes =
      slice-cong m3 m p (a - p) (λ i l h. m3_ne i (omega arith) (omega arith) (omega arith))

  abbrev buffer : Buf → Buf
  buffer b = record b { pos = p; end = end }

  -- The request once its line is read, but for its URL.
  abbrev accepted : Request → Request
  accepted r = record r {
    mem = m3;
    version_str = some (record { at = c + 1; len = d - (c + 1) });
    version = http_11;
    method = verb;
    method_str = some (record { at = p; len = a - p });
  }

  fields_read :
      (r : Request) (b : Buf)
      → request_fields
          (record r { mem = m3 })
          b
          (record { at = p; len = a - p })
          (record { at = a + 1; len = c - (a + 1) })
          (record { at = c + 1; len = d - (c + 1) })
        ≡ url_field (accepted r) b (record { at = a + 1; len = c - (a + 1) })
  unfolding request_fields version_field method_field
  fields_read r b = rw (
    version_bytes, behind_one, number_one, version_field, method_bytes, method_text, method_field,
  )

  tokens_read :
      (r : Request) (b : Buf)
      → request_tokens (record r { mem = m }) (buffer b) p (d + 1)
        ≡ url_field
            (accepted r)
            (record (buffer b) { pos = d + 1 + 1 })
            (record { at = a + 1; len = c - (a + 1) })
  unfolding request_tokens
  tokens_read r b = rw (token_method, request_tokens, token_url, token_version) (fields_read r _)

  -- Such a line is taken apart into its three parts: the version and the method are stored, a NUL is
  -- written behind each part, reading goes on behind the line, and the rest is up to the URL's parser.
  line_read :
      (r : Request) (b : Buf)
      → http_parse_request_line (record r { mem = m }) (buffer b)
        ≡ url_field
            (accepted r)
            (record (buffer b) { pos = d + 1 + 1 })
            (record { at = a + 1; len = c - (a + 1) })
  unfolding http_parse_request_line
  line_read r b =
      rw (stays (b.last - p), eol_found, http_parse_request_line, stays (b.last - p))
        (tokens_read r b)

  abbrev more : ℕ
  more = c - (a + 1) - 1

  url_size : c - (a + 1) ≡ suc more
  url_size = omega arith

  url_read :
      (r : Request)
      → m (a + 1) ≡ b'/'
      → ((i : ℕ) → a + 1 < i → i < c → is_path_byte (m i) ≡ true)
      → http_parse_url m3 r.url (record { at = a + 1; len = c - (a + 1) }) ≡ (
        parse_done,
        write m3 (a + 1 + suc more) 0,
        record r.url {
          unparsed_url = some (slice m3 (a + 1) (suc more));
          port = 80;
          path = some (record { at = a + 1; len = suc more });
        },
      )
  url_read r slash path =
      ap (λ n. http_parse_url m3 r.url (record { at = a + 1; len = n })) url_size
      ∙ http_parse_url_path m3 r.url (a + 1) more
          (m3_ne (a + 1) (omega arith) (omega arith) (omega arith) ∙ slash)
          (λ i l h.
            ap is_path_byte (m3_ne i (omega arith) (omega arith) (omega arith))
            ∙ path i l (omega arith))

  -- A line with one of the methods, a URL that is a path of bytes with a meaning of their own nowhere,
  -- and HTTP/1.1, is accepted: the request has the method, the version, the path (the whole URL) and
  -- port 80, and reading goes on behind the line.
  pub http_parse_request_line_path :
      (r : Request) (b : Buf)
      → m (a + 1) ≡ b'/'
      → ((i : ℕ) → a + 1 < i → i < c → is_path_byte (m i) ≡ true)
      → let (code, r', b') = http_parse_request_line (record r { mem = m }) (buffer b) in
        (code ≡ parse_done)
        × (r'.method ≡ verb)
        × (r'.version ≡ http_11)
        × (r'.url.path ≡ some (record { at = a + 1; len = c - (a + 1) }))
        × (r'.url.port ≡ 80)
        × (b'.pos ≡ d + 1 + 1)
  unfolding url_field
  http_parse_request_line_path r b slash path =
      rw (line_read r b, url_read r slash path, url_field)
        (
          refl,
          refl,
          refl,
          ap (λ n. some (record { at = a + 1; len = n })) (sym url_size),
          refl,
          refl,
        )

  -- The bytes of its URL and those behind it stay where they are, and the buffer only moves on.
  pub path_kept :
      (r : Request) (b : Buf)
      → m (a + 1) ≡ b'/'
      → ((i : ℕ) → a + 1 < i → i < c → is_path_byte (m i) ≡ true)
      → let (code, r', b') = http_parse_request_line (record r { mem = m }) (buffer b) in
        (slice r'.mem (a + 1) (c - (a + 1)) ≡ slice m (a + 1) (c - (a + 1)))
        × (b' ≡ record (buffer b) { pos = d + 1 + 1 })
        × ((i : ℕ) → d + 1 < i → r'.mem i ≡ m i)
        × (r'.headers_in ≡ r.headers_in)
        × (r'.conf ≡ r.conf)
        × (r'.status ≡ r.status)
  unfolding url_field
  path_kept r b slash path =
      rw (line_read r b, url_read r slash path, url_field)
        (
          slice-cong (write m3 (a + 1 + suc more) 0) m (a + 1) (c - (a + 1)) λ i l h.
              write_ne m3 (a + 1 + suc more) 0 i (omega arith)
              ∙ m3_ne i (omega arith) (omega arith) (omega arith),
          refl,
          λ i l.
              write_ne m3 (a + 1 + suc more) 0 i (omega arith)
              ∙ m3_ne i (omega arith) (omega arith) (omega arith),
          refl,
          refl,
          refl,
        )
