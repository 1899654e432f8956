-- ===== src/Tests/Http.antt =====
-- The tables, the headers and the responses, on concrete inputs.
use xwp_server.Base.{pos, true, ◌≡◌, ◌↔◌, ◌≤◌, refl, List, [], ◌∷◌, ◌++◌, none, some, length, arith}
use xwp_server.CLib.{codes, agree, tolower, strncmp_eq}
use xwp_server.CLib.Decimal.{decimal}
use xwp_server.Connection.Response.Announced.{http_header_int-response_headers}
use xwp_server.Connection.Response.Length.{response_length_iff}
use xwp_server.Connection.Response.{
  response_headers, connection_response_headers_len, printed, response_text,
}
use xwp_server.Connection.Send.Delivered.{Delivers, connection_send_response-Delivers}
use xwp_server.Connection.Send.Ends.{connection_send_response_ends}
use xwp_server.Connection.Send.{returned, memory_body, connection_send_response}
use xwp_server.Io.Written.{takes}
use xwp_server.Io.{sent}
use xwp_server.Connection.Route.{Vhost, find_vhost, find_loc, route, first}
use xwp_server.Http.Headers.Laws.{http_header_str-set}
use xwp_server.Http.Headers.{Header, str, http_header_set, http_header_str, http_header_int, value}
use xwp_server.Http.Status.Laws.{http_status_line-scan}
use xwp_server.Http.Status.{http_status_infos, http_status_line}
use xwp_server.Http.Table.{found, scan, search}

http_status_line_404 : http_status_line 404 ≡ found (codes "404 Not Found")
unfolding http_status_line search
http_status_line_404 = refl

http_status_line-scan_example : http_status_line 404 ≡ scan http_status_infos 404
http_status_line-scan_example = http_status_line-scan 404

abbrev accept : List Header
accept = record { name = codes "Accept"; value = str (codes "*") } ∷ []

http_header_str-set_example :
    http_header_str (http_header_set accept (codes "Host") (str (codes "a"))) (codes "Host")
    ≡ some (str (codes "a"))
unfolding agree tolower
http_header_str-set_example =
    http_header_str-set accept (codes "Host") (str (codes "a")) ((λ e. ground arith), tt)

abbrev served : Vhost
served = record {
  name = codes "a";
  locs =
      record { pattern = codes "/x"; handler = 1 }
      ∷ record { pattern = codes "/"; handler = 2 }
      ∷ [];
}

route_second :
    route (λ p s. strncmp_eq s p (length p)) served [] none (codes "/y")
    ≡ some (record { pattern = codes "/"; handler = 2 })
unfolding route find_vhost find_loc first agree
route_second = refl

route_nowhere : route (λ p s. strncmp_eq s p (length p)) served [] none (codes "y") ≡ none
unfolding route find_vhost find_loc first agree
route_nowhere = refl

response_length_iff_example :
    (length (response_text none (codes "404 Not Found") accept)
      ≡ connection_response_headers_len (codes "404 Not Found") accept)
    ↔ (length (printed none) ≡ 8)
unfolding printed
response_length_iff_example = response_length_iff none (codes "404 Not Found") accept (refl, tt)

http_header_int-response_headers_example :
    http_header_int (response_headers true 42 accept) (codes "Content-Length") ≡ value (pos 42)
unfolding agree tolower
http_header_int-response_headers_example =
    http_header_int-response_headers true 42 accept (omega arith) ((λ e. ground arith), tt)

connection_send_response-Delivers_example :
    Delivers
      (response_text
        (some (codes "HTTP/1.1"))
        (codes "404 Not Found")
        (response_headers true 2 accept))
      (memory_body (codes "no"))
      (connection_send_response true
        (some (codes "HTTP/1.1"))
        404
        accept
        (memory_body (codes "no"))
        (sent 500 ∷ [])
        (sent 9 ∷ [])
        none)
unfolding printed
connection_send_response-Delivers_example =
    connection_send_response-Delivers true (some (codes "HTTP/1.1")) 404 (codes "404 Not Found")
      accept (memory_body (codes "no")) (sent 500 ∷ []) (sent 9 ∷ []) none http_status_line_404 refl
      (refl, tt) (omega arith)

short_enough :
    length (
      response_text
        (some (codes "HTTP/1.1"))
        (codes "404 Not Found")
        (response_headers true 2 accept))
    ≤ takes (sent 500 ∷ [])
unfolding response_text response_headers http_header_set agree decimal
short_enough = omega arith

connection_send_response_ends_example :
    connection_send_response true
      (some (codes "HTTP/1.1"))
      404
      accept
      (memory_body (codes "no"))
      (sent 500 ∷ [])
      (sent 9 ∷ [])
      none
    ≡ (
      returned true,
      response_text
            (some (codes "HTTP/1.1"))
            (codes "404 Not Found")
            (response_headers true 2 accept)
          ++ codes "no",
    )
unfolding printed
connection_send_response_ends_example =
    connection_send_response_ends true (some (codes "HTTP/1.1")) 404 (codes "404 Not Found") accept
      (memory_body (codes "no")) (sent 500 ∷ []) (sent 9 ∷ []) none http_status_line_404 refl
      (refl, tt) (omega arith) short_enough (omega arith)
