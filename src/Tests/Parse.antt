-- ===== src/Tests/Parse.antt =====
-- The parsers, on concrete texts.
use xwp_server.Base.{◌∷◌, ℕ, ◌+◌, ◌<◌, ◌≡◌, ◌≢◌, refl, true, false, [], some, none, ◌==◌, arith}
use xwp_server.CLib.{codes, isspace, tolower, agree}
use xwp_server.Memory.{Mem, write, seek, slice}
use xwp_server.Parse.HeaderLine.Block.{
  IsBlock, empty, line, set_all, http_parse_header_line-IsBlock,
}
use xwp_server.Parse.HeaderLine.Reads.{IsHeader}
use xwp_server.Parse.HeaderLine.Rounds.{header_loop_enough}
use xwp_server.Parse.HeaderLine.{http_parse_header_line, header_loop}
use xwp_server.Request.{get}
use xwp_server.Parse.RequestLine.Accepts.{IsRequestLine}
use xwp_server.Parse.RequestLine.{method_of}
use xwp_server.Parse.Token.Laws.{Cuts, get_token-Cuts}
use xwp_server.Parse.Token.{Token, get_token, ends_token, ends_line}
use xwp_server.Parse.Url.Origin.{http_parse_url_query, is_path_byte, is_query_byte}
use xwp_server.Parse.Url.Writes.{Kept, http_parse_url-Kept}
use xwp_server.Parse.Url.{http_parse_url, parse_done}
use xwp_server.Tests.Text.{holding, all_from-holds, none_from-holds, no_url, no_buf}

abbrev words : Mem
words = holding (codes "  ab cd")

abbrev ab : Token
ab = record { token = record { at = 2; len = 2 }; mem = write words 4 0; rest = 5 }

get_token-words : get_token isspace words 0 7 ≡ some ab
unfolding get_token seek isspace
get_token-words = refl

get_token-Cuts_example : Cuts isspace words 0 7 ab
get_token-Cuts_example = get_token-Cuts isspace words 0 7 refl ab get_token-words

blank : get_token isspace (holding (codes "  ")) 0 2 ≡ none
unfolding get_token seek isspace
blank = refl

abbrev page_path : Mem
page_path = holding (codes "/a/b")

page_path-bytes : (i : ℕ) → 0 < i → i < 4 → is_path_byte (page_path i) ≡ true
unfolding is_path_byte is_query_byte isspace
page_path-bytes = all_from-holds (λ i. is_path_byte (page_path i)) 1 3 refl

abbrev page_query : Mem
page_query = holding (codes "/a?b=c")

page_query-path : (i : ℕ) → 0 < i → i < 2 → is_path_byte (page_query i) ≡ true
unfolding is_path_byte is_query_byte isspace
page_query-path = all_from-holds (λ i. is_path_byte (page_query i)) 1 1 refl

page_query-bytes : (i : ℕ) → 2 < i → i < 6 → is_query_byte (page_query i) ≡ true
unfolding is_query_byte isspace
page_query-bytes = all_from-holds (λ i. is_query_byte (page_query i)) 3 3 refl

http_parse_url_query_example : http_parse_url page_query no_url (record { at = 0; len = 6 }) ≡ (
  parse_done,
  write (write page_query 2 0) 6 0,
  record no_url {
    unparsed_url = some (slice page_query 0 6);
    port = 80;
    path = some (record { at = 0; len = 2 });
    query_string = some (record { at = 3; len = 3 });
  },
)
http_parse_url_query_example =
    http_parse_url_query page_query no_url 0 2 5 refl (omega arith) (omega arith) page_query-path
      refl page_query-bytes

-- A path with a space behind it.
abbrev broken : Mem
broken = holding (codes "/a b")

http_parse_url-Kept_example :
    Kept 0 4 broken (http_parse_url broken no_url (record { at = 0; len = 4 }))
http_parse_url-Kept_example =
    http_parse_url-Kept broken no_url (record { at = 0; len = 4 }) (tt, tt, tt)

abbrev get_line : Mem
get_line = holding (codes "GET /ab HTTP/1.1\r\n")

get_line-IsRequestLine : IsRequestLine get_line 0 3 7 16 18 get
unfolding isspace method_of slice agree tolower
get_line-IsRequestLine = record {
  method_some = omega arith;
  url_some = omega arith;
  version_len = refl;
  fits = omega arith;
  solid_method = none_from-holds (λ i. ends_token isspace (get_line i)) 0 3 refl;
  solid_url = none_from-holds (λ i. ends_token isspace (get_line i)) 4 3 refl;
  solid_version = none_from-holds (λ i. ends_token isspace (get_line i)) 8 8 refl;
  first_space = refl;
  second_space = refl;
  carriage = refl;
  newline = refl;
  version_text = refl;
  method_text = refl;
}

unequal : (a b : ℕ) → (a == b) ≡ false → a ≢ b
unequal a b e = ground arith

abbrev host_line : Mem
host_line = holding (codes "Host: a\r\n")

host_line-IsHeader : IsHeader host_line 0 4 6 7 9
unfolding isspace
host_line-IsHeader = record {
  name_some = omega arith;
  value_after = omega arith;
  value_some = omega arith;
  fits = omega arith;
  small = omega arith;
  plain = none_from-holds (λ i. ends_line (host_line i)) 0 8 refl;
  no_colon = λ i l h.
      unequal (host_line i) b':' (none_from-holds (λ i. host_line i == b':') 0 4 refl i l h);
  name_first = refl;
  name_last = refl;
  colon = refl;
  blank = all_from-holds (λ i. isspace (host_line i)) 5 1 refl;
  value_first = refl;
  carriage = refl;
  newline = refl;
}

header_loop_enough_example :
    header_loop (9 + 3) 9 9 (record { mem = host_line; pos = 0; headers = [] })
    ≡ header_loop 9 9 9 (record { mem = host_line; pos = 0; headers = [] })
header_loop_enough_example =
    header_loop_enough 9 3 9 9 (record { mem = host_line; pos = 0; headers = [] }) (omega arith)

abbrev block : Mem
block = holding (codes "Host: a\r\n\r\n")

block-IsHeader : IsHeader block 0 4 6 7 11
unfolding isspace
block-IsHeader = record {
  name_some = omega arith;
  value_after = omega arith;
  value_some = omega arith;
  fits = omega arith;
  small = omega arith;
  plain = none_from-holds (λ i. ends_line (block i)) 0 8 refl;
  no_colon =
      λ i l h. unequal (block i) b':' (none_from-holds (λ i. block i == b':') 0 4 refl i l h);
  name_first = refl;
  name_last = refl;
  colon = refl;
  blank = all_from-holds (λ i. isspace (block i)) 5 1 refl;
  value_first = refl;
  carriage = refl;
  newline = refl;
}

block-IsBlock : IsBlock block 11 0 ((codes "Host", codes "a") ∷ []) 11
unfolding slice
block-IsBlock =
    line 0 4 6 7 11 (codes "Host") (codes "a") [] block-IsHeader refl refl
      (empty 9 (omega arith) refl refl)

http_parse_header_line-IsBlock_example :
    let (code, m', b', headers') =
      http_parse_header_line block (record no_buf { end = 11; last = 11 }) [] in
    (code ≡ parse_done) × (b'.pos ≡ 11) × (headers' ≡ set_all [] ((codes "Host", codes "a") ∷ []))
http_parse_header_line-IsBlock_example =
    http_parse_header_line-IsBlock block (record no_buf { end = 11; last = 11 }) []
      ((codes "Host", codes "a") ∷ []) 11 block-IsBlock (omega arith)
