-- ===== src/Tests/Pieces.antt =====
-- A request line in three pieces, with an interruption.
use xwp_server.Base.{
  Bool, pos, none, ℕ, ◌≡◌, ◌≢◌, true, false, refl, some, List, [], ◌∷◌, ◌++◌, ◌==◌, arith, ◌&&◌,
  ◌≤◌, length, map, if◌then◌else◌,
}
use xwp_server.CLib.{atoi, Bytes, codes, isspace, tolower, agree}
use xwp_server.CLib.Decimal.{decimal}
use xwp_server.Connection.Route.{Vhost, serves}
use xwp_server.Connection.Route.First.{Splits}
use xwp_server.Connection.Response.{response_headers, printed, response_text}
use xwp_server.Http.Status.{http_status_line}
use xwp_server.Http.Table.{found, search}
use xwp_server.Io.Written.{takes}
use xwp_server.Io.{sent, nwrite}
use xwp_server.Memory.{c_string, seek, slice}
use xwp_server.Connection.Send.{BodyOut, memory_body}
use xwp_server.Connection.Turn.Reaches.{turn_reaches, text_of_answer, CanBeSent}
use xwp_server.Connection.Turn.{Calls, turn, is_sent, behind_continue, text_at, goes_on, breaks}
use xwp_server.Connection.Receive.Whole.{IsReceived, connection_gen_request-IsReceived}
use xwp_server.Connection.Receive.{connection_gen_request}
use xwp_server.Http.Headers.{
  Str, value, text_int, http_header_set, http_header_str, http_header_int,
}
use xwp_server.Memory.Pieces.{IsFreeOf}
use xwp_server.Memory.Stands.{AllAre}
use xwp_server.Parse.RequestLine.{method_of}
use xwp_server.Parse.Token.{ends_token}
use xwp_server.Parse.Url.Origin.{is_path_byte, is_query_byte}
use xwp_server.Process.Pieces.Line.{IsQuiet, AreParts, process_line-pieces}
use xwp_server.Process.Pieces.Fields.{AreFields}
use xwp_server.Process.Pieces.Served.{Served, http_process_request_line-Served}
use xwp_server.Process.{
  Recv, interrupted, received, http_process_request_line, http_process_status_line,
}
use xwp_server.Parse.HeaderLine.Block.{set_all}
use xwp_server.Process.HeaderFields.{header_content_len, header_expect, continue_text}
use xwp_server.Process.Pieces.Fields.{is_name_byte}
use xwp_server.Request.{Request, Body, get, post}
use xwp_server.Tests.Text.{holding, request_in}

abbrev roomy : Request
roomy =
    let r = request_in (holding []) in record r { conf = record r.conf { client_header_size = 64 } }

free_from : (v : ℕ) (c : Bytes) → AllAre (λ x. x == v) false c → IsFreeOf v c
free_from v [] h = tt
free_from v (x ∷ c) h = (unequal x v h.0, free_from v c h.1)
  where
    unequal : (x v : ℕ) → (x == v) ≡ false → x ≢ v
    unequal x v e = ground arith

abbrev early : List Recv
early = received (codes "GET") ∷ interrupted ∷ received (codes " /a HT") ∷ []

early-IsQuiet : IsQuiet early
early-IsQuiet = (
  free_from b'\n' (codes "GET") (refl, (refl, (refl, tt))),
  (free_from b'\n' (codes " /a HT") (refl, (refl, (refl, (refl, (refl, (refl, tt)))))), tt),
)

abbrev pieces : List Bytes
pieces = codes "GET" ∷ codes " /a HT" ∷ []

pieces-AreParts : AreParts pieces
pieces-AreParts = (omega arith, early-IsQuiet.0, (omega arith, early-IsQuiet.1.0, tt))

process_line-pieces_example :
    (http_process_request_line roomy (map received pieces ++ received (codes "TP/1.1\r\n") ∷ [])
      ≡ http_process_request_line roomy (received (codes "GET /a HTTP/1.1\r\n") ∷ []))
    × (http_process_status_line roomy (map received pieces ++ received (codes "TP/1.1\r\n") ∷ [])
        ≡ http_process_status_line roomy (received (codes "GET /a HTTP/1.1\r\n") ∷ []))
process_line-pieces_example =
    process_line-pieces roomy pieces [] (codes "TP/1.1\r\n") pieces-AreParts (omega arith)
      (omega arith) (omega arith)

get_tokens : AllAre (ends_token isspace) false (codes "GET")
unfolding isspace
get_tokens = (refl, (refl, (refl, tt)))

a_path : AllAre is_path_byte true (codes "a")
unfolding is_path_byte is_query_byte isspace
a_path = (refl, tt)

get_known : method_of (codes "GET") 3 ≡ some get
unfolding method_of agree tolower
get_known = refl

http_process_request_line-Served_example :
    Served roomy get
      (codes "a")
      (codes "\r\n")
      (http_process_request_line roomy (early ++ received (codes "TP/1.1\r\n\r\n") ∷ []))
http_process_request_line-Served_example =
    http_process_request_line-Served roomy early [] (codes "TP/1.1\r\n\r\n") (codes "GET")
      (codes "a") (codes "\r\n") get early-IsQuiet (omega arith) refl (omega arith) get_tokens
      a_path get_known (omega arith) (omega arith)

-- A request with a body, whose method is cut off in the first piece.
abbrev early_post : List Recv
early_post = received (codes "PO") ∷ interrupted ∷ received (codes "ST ") ∷ []

early_post-IsQuiet : IsQuiet early_post
early_post-IsQuiet = (
  free_from b'\n' (codes "PO") (refl, (refl, tt)),
  (free_from b'\n' (codes "ST ") (refl, (refl, (refl, tt))), tt),
)

post_tokens : AllAre (ends_token isspace) false (codes "POST")
unfolding isspace
post_tokens = (refl, (refl, (refl, (refl, tt))))

post_known : method_of (codes "POST") 4 ≡ some post
unfolding method_of agree tolower
post_known = refl

abbrev post_fields : List (Bytes × Bytes)
post_fields = (codes "Host", codes "b") ∷ (codes "Content-Length", codes "2") ∷ []

length_name : AllAre is_name_byte true (codes "Content-Length")
unfolding isspace
length_name = (
  refl,
  (
    refl,
    (
      refl,
      (refl, (refl, (refl, (refl, (refl, (refl, (refl, (refl, (refl, (refl, (refl, tt))))))))))),
    ),
  ),
)

post_fields-AreFields : AreFields post_fields
unfolding isspace
post_fields-AreFields = (
  omega arith,
  (refl, (refl, (refl, (refl, tt)))),
  refl,
  (refl, tt),
  (omega arith, length_name, refl, (refl, tt), tt),
)

says_two : http_header_int (set_all roomy.headers_in post_fields) header_content_len ≡ value (pos 2)
unfolding http_header_int http_header_str http_header_set agree tolower text_int atoi
says_two = refl

no_expect : http_header_str (set_all roomy.headers_in post_fields) header_expect ≡ none
unfolding http_header_str http_header_set agree tolower
no_expect = refl

abbrev no_body : Body
no_body = record { content_len = pos 0; content = none }

abbrev last_piece : Bytes
last_piece = codes "/a HTTP/1.1\r\nHost: b\r\nContent-Length: 2\r\n\r\nhi"

connection_gen_request-IsReceived_example :
    IsReceived roomy no_body post
      (codes "a")
      (set_all [] post_fields)
      (codes "hi")
      (connection_gen_request true no_body roomy (early_post ++ received last_piece ∷ []) [] [])
connection_gen_request-IsReceived_example =
    connection_gen_request-IsReceived true no_body roomy early_post [] [] [] last_piece
      (codes "POST") (codes "a") (codes "hi") [] post post_fields (pos 2) early_post-IsQuiet
      (omega arith) refl (omega arith) post_tokens a_path post_known refl post_fields-AreFields
      (omega arith) (omega arith) says_two refl (omega arith) no_expect

-- Every path goes to the first handler, which takes the request.
abbrev host_b : Vhost
host_b = record { name = codes "b"; locs = record { pattern = codes "/"; handler = 0 } ∷ [] }

abbrev any_path : Bytes → Bytes → Bool
any_path pattern path = true

abbrev post_calls : Calls
post_calls = record {
  line_events = early_post ++ received last_piece ∷ [];
  header_events = [];
  body_events = [];
  text_sends = sent 500 ∷ [];
  body_sends = sent 9 ∷ [];
  file_sent = none;
  expect_sends = [];
}

abbrev host_value : Str
host_value = record { text = some (codes "b"); len = 1 }

has_host : http_header_str (set_all roomy.headers_in post_fields) (codes "Host") ≡ some host_value
unfolding http_header_str http_header_set agree tolower
has_host = refl

-- The handler of the first location makes a response.
abbrev answers : ℕ → Request → Body → Request × BodyOut
answers handler r body = (
  record r {
    mem = holding (codes "HTTP/1.1");
    version_str = some (record { at = 0; len = 8 });
    status = 200;
    keep_alive = true;
    headers_out = [];
  },
  memory_body (codes "ok"),
)

-- The result that `nwrite` would have.
abbrev can_send : Bool
can_send = is_sent (nwrite continue_text []).0

abbrev received_post : Request × Body
received_post =
    let (reply, r, body) =
      connection_gen_request can_send no_body roomy post_calls.line_events [] [] in
    (r, body)

short_answer :
    length (text_of_answer (codes "200 OK") (answers 0 received_post.0 received_post.1))
    ≤ takes (sent 500 ∷ [])
unfolding response_text response_headers http_header_set agree decimal c_string seek slice
short_answer = omega arith

eight :
    length (printed (text_at (holding (codes "HTTP/1.1")) (some (record { at = 0; len = 8 })))) ≡ 8
unfolding printed c_string seek slice
eight = refl

ok_line : http_status_line 200 ≡ found (codes "200 OK")
unfolding http_status_line search
ok_line = refl

answers-CanBeSent :
    CanBeSent post_calls (codes "200 OK") (answers 0 received_post.0 received_post.1)
answers-CanBeSent = (omega arith, ok_line, eight, tt, omega arith, short_answer, omega arith)

abbrev other_vhost : Vhost
other_vhost = record { name = codes "a"; locs = [] }

other_skipped : serves (codes "b") other_vhost ≡ false
unfolding agree tolower
other_skipped = refl

host_b_asked : serves (codes "b") host_b ≡ true
unfolding agree tolower
host_b_asked = refl

b_found : Splits (serves (codes "b")) (other_vhost ∷ host_b ∷ []) host_b
b_found = record {
  before = other_vhost ∷ [];
  after = [];
  whole = refl;
  passes = host_b_asked;
  skipped = (other_skipped, tt);
}

path_found :
    Splits
      (λ l. any_path l.pattern (codes "/a"))
      host_b.locs
      (record { pattern = codes "/"; handler = 0 })
path_found = record { before = []; after = []; whole = refl; passes = refl; skipped = tt }

turn_reaches_example :
    turn any_path other_vhost (other_vhost ∷ host_b ∷ []) answers true post_calls roomy no_body
    ≡ behind_continue received_post.0.continued (nwrite continue_text []) (
      if true && true then goes_on else breaks,
      text_of_answer (codes "200 OK") (answers 0 received_post.0 received_post.1) ++ codes "ok",
    )
turn_reaches_example =
    turn_reaches any_path other_vhost (other_vhost ∷ host_b ∷ []) answers true post_calls roomy
      no_body post (codes "a") (codes "hi") (codes "b") (codes "200 OK") (set_all [] post_fields)
      host_value host_b (record { pattern = codes "/"; handler = 0 })
      (connection_gen_request-IsReceived can_send no_body roomy early_post [] [] [] last_piece
        (codes "POST") (codes "a") (codes "hi") [] post post_fields (pos 2) early_post-IsQuiet
        (omega arith) refl (omega arith) post_tokens a_path post_known refl post_fields-AreFields
        (omega arith) (omega arith) says_two refl (omega arith) no_expect)
      (omega arith) (refl, tt) has_host refl b_found path_found answers-CanBeSent
