-- ===== src/Connection/Loop.antt =====
-- The loop of `connection_run` in src/connection.c over the requests of a connection that does not time
-- out, with `http_request_create` of src/http_request.c for each of them.
pub mod Answered
use xwp_server.Base.{ℕ, Bool, false, List, [], ◌∷◌, none, pos}
use xwp_server.CLib.{Bytes}
use xwp_server.Connection.Route.{Vhost}
use xwp_server.Connection.Send.{BodyOut}
use xwp_server.Connection.Turn.{TurnEnd, goes_on, breaks, crashed, hangs, Calls, turn}
use xwp_server.Memory.{Mem}
use xwp_server.Request.{Conf, Body, Request, stat_none, get, http_10}

-- The zeros of `pool_calloc`, and the fields that are set; the memory of the request's pool is free
-- from `free` on. Allocations are taken to succeed.
unfoldable pub http_request_create : Conf → Mem → ℕ → Request
http_request_create conf mem free = record {
  mem = mem;
  free = free;
  conf = conf;
  state = stat_none;
  method_str = none;
  method = get;
  url = record {
    unparsed_url = none;
    schema = none;
    host = none;
    port = 0;
    path = none;
    query_string = none;
  };
  version_str = none;
  version = http_10;
  status = 200;
  keep_alive = false;
  continued = false;
  header_buf = record { start = 0; end = 0; pos = 0; last = 0 };
  headers_in = [];
  headers_out = [];
  in_content_len = pos 0;
  out_content_len = pos 0;
}

-- `body_in` of a new request
abbrev pub new_body : Body
new_body = record { content_len = pos 0; content = none }

-- What a turn meets: the memory of the new pool, the results of the calls, and the result of
-- `connection_finalize_request` behind it.
pub record Incoming : Type 0 where
  pub mem : Mem
  pub free : ℕ
  pub calls : Calls
  pub finalized : Bool

-- What follows a turn, which the loop comes to only from `goes_on`.
unfoldable pub behind_turn : TurnEnd × Bytes → TurnEnd × List Bytes → TurnEnd × List Bytes
behind_turn (goes_on, wire) (last, wires) = (last, wire ∷ wires)
behind_turn (breaks, wire) rest = (breaks, wire ∷ [])
behind_turn (crashed, wire) rest = (crashed, wire ∷ [])
behind_turn (hangs, wire) rest = (hangs, wire ∷ [])

module _ (conf : Conf) (matches : Bytes → Bytes → Bool) (default : Vhost) (vhosts : List Vhost)
    (handle : ℕ → Request → Body → Request × BodyOut) where
  -- How the loop ends, and what each turn has sent. Behind the last request it waits for another.
  unfoldable pub connection_run : List Incoming → TurnEnd × List Bytes
  unfolding http_request_create behind_turn
  connection_run [] = (hangs, [])
  connection_run (i ∷ incoming) =
      behind_turn
        (turn matches default vhosts handle i.finalized i.calls
          (http_request_create conf i.mem i.free) new_body)
        (connection_run incoming)
