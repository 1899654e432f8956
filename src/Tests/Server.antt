-- ===== src/Tests/Server.antt =====
-- The threads of a server, in a state that they reach.
use xwp_server.Base.{◌⊎◌, ◌≤◌, ◌≡◌, ◌≢◌, ◌∷◌, [], refl, true, false, arith}
use xwp_server.Server.Free.{free_connections-ne-nil}
use xwp_server.Server.Owned.{owners, connection_owned_once}
use xwp_server.Server.Stops.{none_yet, one_more, Moves, IsFinished, IsDeadlocked, server_stops}
use xwp_server.Server.{
  Server, stops, refused, testing, accepting, serving, guard_testing, server_create, Reach, here,
  next, goes_on, take,
}

-- Two threads, of which the first has accepted a socket.
abbrev one_served : Server
one_served = record {
  free = 1 ∷ [];
  threads = serving 0 ∷ accepting ∷ [];
  guard = guard_testing;
  running = true;
}

one_served-Reach : Reach (server_create 2) one_served
unfolding server_create
one_served-Reach =
    next
      (next (next here (goes_on [] (testing ∷ []) refl refl))
        (goes_on (accepting ∷ []) [] refl refl))
      (take [] (accepting ∷ []) 0 (1 ∷ []) refl refl)

free_connections-ne-nil_example : one_served.free ≢ []
free_connections-ne-nil_example =
    free_connections-ne-nil 2 one_served (serving 0 ∷ []) [] one_served-Reach refl

connection_owned_once_example : owners 0 one_served ≡ 1
connection_owned_once_example = connection_owned_once 2 0 one_served (omega arith) one_served-Reach

-- The server is stopped, and the second thread's `accept` fails.
abbrev stopped : Server
stopped = record one_served { running = false }

stopped-Reach : Reach (server_create 2) stopped
stopped-Reach = next one_served-Reach (stops refl)

abbrev refused_one : Server
refused_one = record stopped { threads = serving 0 ∷ testing ∷ [] }

server_stops_example :
    (1 ≤ 8) × (Moves refused_one ⊎ (IsFinished 2 refused_one ⊎ IsDeadlocked 2 refused_one))
server_stops_example =
    server_stops 2 1 stopped refused_one stopped-Reach refl
      (one_more none_yet (refused (serving 0 ∷ []) [] refl))
