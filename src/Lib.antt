-- ===== src/Lib.antt =====
-- A verification library for xwp, a web server in C with one thread per connection.
--
-- The program. The master process of src/main.c reads a configuration (src/conf.c), opens the
-- socket and forks a worker, which it forks again when it ends. In the worker the listening threads
-- of src/server.c take connections from a shared free list. A connection (src/connection.c) reads
-- one request after another: the parsers and receiving loops of src/http_request.c fill in a
-- request, which is routed to the handler of a location, either static files or a uwsgi backend
-- (src/module_uwsgi.c), and the response is printed with the tables and the headers of src/http.c.
-- Memory comes from pools (src/pool.c), in buffers (src/buf.c) and growing arrays (src/array.c).
--
-- Files, and the code they are about.
--   Base        shared names, Boolean tests, lists and integers over native numbers
--   CLib        what the code uses of the C library: character classes, comparisons, atoi, %d
--   Memory      bytes by address, the loops that walk over them, and C strings
--   Array       src/array.c: array_create, array_push
--   Pool        src/pool.c: pool_create, pool_alloc, pool_add_cleanup, pool_destroy;
--               Pool.Strings: pool_strdup, pool_strndup
--   Http        src/http.c. Http.Table: the binary search; Http.Status: http_status_line;
--               Http.ErrorPage: http_error_page; Http.ContentType: http_content_type; Http.Headers:
--               http_header_set, http_header_set2, http_header_str, http_header_int,
--               http_header_equal
--   Parse       src/http_request.c and get_token of src/utils.c. Parse.Token: get_token and
--               find_next_eol; Parse.Url: http_parse_url; Parse.RequestLine, Parse.HeaderLine and
--               Parse.StatusLine: the functions of these names
--   Request     the request of src/http.h. Request.Buffer: buf_create of src/buf.c and the two
--               functions of src/http_request.c that allocate header buffers
--   Process     src/http_request.c: http_process_request_line, http_process_status_line;
--               Process.HeaderFields: http_process_header_line; Process.Body:
--               http_process_content_body; Process.Pieces: a line that arrives in pieces
--   Uwsgi       src/module_uwsgi.c. Uwsgi.Packet: what upstream_uwsgi_process sends; Uwsgi.Exchange:
--               the whole of it; Uwsgi.Abort: its end, and upstream_uwsgi_abort, as steps;
--               Uwsgi.Module: module_uwsgi_conf_init and the functions around it
--   Static      src/module_default.c: module_default_handle_request, module_default_create
--   Io          src/utils.c: nwrite, connect_remote, open_listen_fd, read_file
--   Xml         the functions xml_tree_find to xml_tree_int_first of src/xml_tree.c
--   Conf        src/conf.c: conf_parse and what it calls; Conf.Destroy: conf_destroy
--   Server      src/server.c: server_create, the steps of server_listen_proc and server_guard_proc,
--               and the calls of server_destroy
--   Master      src/main.c: the signal handler and the steps of master_main; Master.Options: the
--               options of main, and worker_main; Master.Main: main
--   Interfaces  src/module.h and src/upstream.h, and their use by connection_process_request
--   Connection  src/connection.c. Connection.Receive: connection_gen_request; Connection.Route:
--               connection_process_request; Connection.Response: the text of a response, and
--               connection_special_response; Connection.Send: connection_send_response;
--               Connection.Turn and Connection.Loop: one turn of the loop of connection_run, which
--               composes these, and the loop, with http_request_create of src/http_request.c;
--               Connection.Run: the steps of connection_run, connection_finalize_request,
--               connection_reusable and connection_check_timeout; Connection.Run.Close:
--               connection_reusable and connection_close as functions
--   Tests       runs at concrete inputs
-- A definition has the name of the function that it models, or of the part of it that its comment
-- says. A child module of a part holds what is known about it.
--
-- State. A buffer is four addresses (start, end, pos, last) into one memory, a function from
-- addresses to bytes, and each function that writes returns the new memory. A request carries its
-- memory and the first address that is free. What malloc, recv, send, stat, open, connect and
-- regexec return are arguments, and with recv whether errno is EINTR where it is tested behind it. A
-- pointer that may be NULL is an Option; a read through NULL, a failing assert, a read outside a
-- table and a store outside an array are results of their own. Once a header buffer has grown, its
-- `last` is behind its `end` (Request.Buffer.Growth): what recv stores there is stored in the memory
-- at these addresses, which is no result of its own.
--
-- Bounds and fuel. A walk over bytes takes the number of bytes up to the end of its buffer, where
-- the NUL stands, as its bound; the loop over header lines takes the number of bytes before `last`,
-- since each round that goes on passes a byte; the binary search takes two rounds more than the
-- table is long, since each round makes the interval smaller. The receiving loops recur on the list
-- of results of recv, and nwrite on that of send, and one that has used it up is waiting. A loop of
-- the configuration over the children of a node takes one round more than there are children.
-- size_t differences are taken modulo 2 ^ 64, and uint16_t sums modulo 2 ^ 16; an int that could
-- overflow only beyond the configured sizes is a number.
--
-- Not modelled: the XML parser and zlog, which are other projects' libraries; what is printed and
-- logged, and with it dump_conf, which logs the configuration; what server_destroy does where it
-- joins threads that were created detached; what an exchange with the backend does on a socket that
-- an abort has closed; the failure of allocations, but for the pool's own, those whose result a
-- function passes on, and those of connection_run and connection_finalize_request in
-- Connection.Run; with it the result 0 of array_push. The asserts of the receiving functions on
-- request->state and on content_fd (lines 533, 602-606, 725, 787-789 and 921 of
-- src/http_request.c) are left out too: the state is that of the function called before, but at
-- line 725 for a request with "Expect" whose answer could not be sent.
pub mod Base
pub mod CLib
pub mod Http
pub mod Memory
pub mod Parse
pub mod Request
pub mod Process
pub mod Uwsgi
pub mod Array
pub mod Pool
pub mod Server
pub mod Connection
pub mod Tests
pub mod Io
pub mod Xml
pub mod Conf
pub mod Static
pub mod Master
pub mod Interfaces
