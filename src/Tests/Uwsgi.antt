-- ===== src/Tests/Uwsgi.antt =====
-- A packet for a small request, its exchange, and an abort.
use xwp_server.Base.{
  ◌+◌, ◌≤◌, ◌≡◌, ◌++◌, ◌%◌, ◌^◌, [], ◌∷◌, none, some, length, arith, refl, true, false, pos,
}
use xwp_server.CLib.{codes, strcmp_eq}
use xwp_server.Io.Written.{takes}
use xwp_server.Io.{sent}
use xwp_server.Process.{received, http_process_status_line}
use xwp_server.Request.{Body}
use xwp_server.Tests.Text.{holding, request_in}
use xwp_server.Uwsgi.Abort.Ends.{exchange_can_end}
use xwp_server.Uwsgi.Abort.Once.{backend_closed_once}
use xwp_server.Uwsgi.Abort.{
  Upstream, upstream_of, finished, abort_waiting, exchanging, away, unlocked, by_abort, Run, here,
  next, begins, done, process_takes, process_leaves, calls, abort_takes, abort_closes, abort_ends,
}
use xwp_server.Uwsgi.Exchange.Ends.{upstream_uwsgi_process_ends}
use xwp_server.Uwsgi.Exchange.Sent.{Exchanged, upstream_uwsgi_process-Exchanged}
use xwp_server.Uwsgi.Exchange.{body_in_bytes, status_answer, upstream_uwsgi_process}
use xwp_server.Uwsgi.Module.{module_uwsgi_conf_init}
use xwp_server.Xml.{
  normal, text, end, sibling, Children, xml_tree_find_first, xml_tree_find, is_named,
  xml_tree_str_first, xml_tree_int_first, xml_tree_str, xml_tree_int,
}
use xwp_server.Uwsgi.Packet.Decode.{Fit, decode_vars, decode_vars-packet_vars}
use xwp_server.Uwsgi.Packet.Len.{calc_packet_len-length}
use xwp_server.Uwsgi.Packet.{
  add_params, upstream_uwsgi_add_param, Env, cgi_params, header_params, packet_vars,
  upstream_uwsgi_calc_packet_len, upstream_uwsgi_packet,
}

abbrev small : Env
small = record {
  query_string = [];
  method_str = codes "GET";
  content_type = [];
  content_len = [];
  unparsed_url = codes "/a";
  path = codes "/a";
  root = [];
  version_str = codes "HTTP/1.1";
  remote_ip = codes "127.0.0.1";
  server_ip = codes "127.0.0.1";
  server_port = codes "80";
  server_name = codes "a";
  headers = [];
}

small-Fit : Fit (cgi_params small ++ header_params small.headers)
unfolding cgi_params header_params
small-Fit = (
  omega arith,
  omega arith,
  (
    omega arith,
    omega arith,
    (
      omega arith,
      omega arith,
      (
        omega arith,
        omega arith,
        (
          omega arith,
          omega arith,
          (
            omega arith,
            omega arith,
            (
              omega arith,
              omega arith,
              (
                omega arith,
                omega arith,
                (
                  omega arith,
                  omega arith,
                  (
                    omega arith,
                    omega arith,
                    (
                      omega arith,
                      omega arith,
                      (omega arith, omega arith, (omega arith, omega arith, tt)),
                    ),
                  ),
                ),
              ),
            ),
          ),
        ),
      ),
    ),
  ),
)

decode_vars-packet_vars_example :
    decode_vars (packet_vars small) ≡ some (cgi_params small ++ header_params small.headers)
decode_vars-packet_vars_example = decode_vars-packet_vars small small-Fit

calc_packet_len-length_example :
    upstream_uwsgi_calc_packet_len small ≡ length (packet_vars small) % 2 ^ 16
calc_packet_len-length_example = calc_packet_len-length small

abbrev nothing : Body
nothing = record { content_len = pos 0; content = none }

upstream_uwsgi_process-Exchanged_example :
    Exchanged (packet_vars small) (upstream_uwsgi_packet 0 0 small) [] (
      upstream_uwsgi_process nothing 0 0 small
        (request_in (holding []))
        nothing
        (sent 1000 ∷ [])
        []
        (received [] ∷ [])
        []
        [])
unfolding body_in_bytes
upstream_uwsgi_process-Exchanged_example =
    upstream_uwsgi_process-Exchanged 0 0 small (request_in (holding [])) nothing nothing []
      (sent 1000 ∷ []) [] (received [] ∷ []) [] [] refl

small_short : length (packet_vars small) + 4 ≤ takes (sent 1000 ∷ [])
unfolding packet_vars add_params cgi_params upstream_uwsgi_add_param header_params
small_short = omega arith

upstream_uwsgi_process_ends_example :
    upstream_uwsgi_process nothing 0 0 small
      (request_in (holding []))
      nothing
      (sent 1000 ∷ [])
      []
      (received [] ∷ [])
      []
      []
    ≡ (
      status_answer nothing [] []
          (http_process_status_line (request_in (holding [])) (received [] ∷ [])),
      upstream_uwsgi_packet 0 0 small ++ [],
    )
unfolding body_in_bytes
upstream_uwsgi_process_ends_example =
    upstream_uwsgi_process_ends 0 0 small (request_in (holding [])) nothing nothing []
      (sent 1000 ∷ []) [] (received [] ∷ []) [] [] refl (omega (arith, small_short)) small_short
      (omega arith)

abbrev port_node : Children
port_node =
    sibling
      (normal (codes "uwsgi_pass")
        (sibling (normal (codes "port") (sibling (text (codes "9000")) end)) end))
      end

-- Without a port the module is created, with port 65535.
no_port :
    module_uwsgi_conf_init
      (some (normal (codes "conf") (sibling (normal (codes "uwsgi_pass") end) end)))
    ≡ some (record { ip = codes "127.0.0.1"; port = 65535; modifier1 = 0; modifier2 = 0 })
unfolding module_uwsgi_conf_init xml_tree_find_first xml_tree_find is_named strcmp_eq
    xml_tree_str_first xml_tree_int_first xml_tree_str xml_tree_int
no_port = refl

-- An abort has closed the socket and waits.
abbrev aborting : Upstream
aborting = record {
  process = exchanging;
  abort = abort_waiting;
  mutex = by_abort;
  running = true;
  fd = false;
  closed = 1;
}

aborting-Run : Run (upstream_of false) aborting
unfolding upstream_of
aborting-Run =
    next (next (next (next here (begins refl)) (calls refl)) (abort_takes refl refl))
      (abort_closes refl refl refl)

exchange_can_end_example : (v : Upstream) × Run aborting v × (v.process ≡ finished)
exchange_can_end_example = exchange_can_end false aborting aborting-Run

abbrev over : Upstream
over = record {
  process = finished;
  abort = away;
  mutex = unlocked;
  running = false;
  fd = false;
  closed = 1;
}

over-Run : Run (upstream_of false) over
over-Run =
    next
      (next (next (next aborting-Run (done refl)) (abort_ends refl refl)) (process_takes refl refl))
      (process_leaves refl refl)

backend_closed_once_example : over.closed ≡ 1
backend_closed_once_example = backend_closed_once false over over-Run refl
