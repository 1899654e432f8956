-- ===== src/Uwsgi/Abort/Once.antt =====
-- The socket to the backend is closed once.
use xwp_server.Base.{◌+◌, ◌≡◌, Bool, true, false, if◌then◌else◌, arith}
use xwp_server.Uwsgi.Abort.{
  Process, created, exchanging, process_locked, finished, Abort, abort_locked, abort_waiting,
  by_process, by_abort, Upstream, upstream_of, Step, begins, done, process_takes, process_closes,
  process_leaves, calls, abort_takes, abort_closes, no_socket, not_running, abort_ends, Run, here,
  next,
}

abbrev pub process_holds : Process → Bool
process_holds process_locked = true
process_holds _ = false

abbrev pub abort_holds : Abort → Bool
abort_holds abort_locked = true
abort_holds abort_waiting = true
abort_holds _ = false

-- Behind `running = 0`.
abbrev pub is_past : Process → Bool
is_past created = false
is_past exchanging = false
is_past _ = true

-- Who holds the mutex, what `running` says, and how often the socket was closed.
abbrev pub IsSafe : Upstream → Type 0
IsSafe u =
    (process_holds u.process ≡ true → u.mutex ≡ by_process)
    × (abort_holds u.abort ≡ true → u.mutex ≡ by_abort)
    × (u.mutex ≡ by_process → process_holds u.process ≡ true)
    × (u.mutex ≡ by_abort → abort_holds u.abort ≡ true)
    × (is_past u.process ≡ true → u.running ≡ false)
    × (u.process ≡ finished → u.fd ≡ false)
    × (u.closed + (if u.fd then 1 else 0) ≡ 1)

step-IsSafe : {u v : Upstream} → IsSafe u → Step u v → IsSafe v
step-IsSafe s (begins e) = ground arith
step-IsSafe s (done e) = ground arith
step-IsSafe s (process_takes e f) = ground arith
step-IsSafe s (process_closes e f) = ground arith
step-IsSafe s (process_leaves e f) = ground arith
step-IsSafe s (calls e) = ground arith
step-IsSafe s (abort_takes e f) = ground arith
step-IsSafe s (abort_closes e f k) = ground arith
step-IsSafe s (no_socket e f) = ground arith
step-IsSafe s (not_running e f) = ground arith
step-IsSafe s (abort_ends e f) = ground arith

pub Run-IsSafe : (garbage : Bool) {u : Upstream} → Run (upstream_of garbage) u → IsSafe u
unfolding upstream_of
Run-IsSafe garbage here = ground arith
Run-IsSafe garbage (next h step) = step-IsSafe (Run-IsSafe garbage h) step

-- Whatever the order of the steps, the socket to the backend has been closed exactly once when
-- `upstream_uwsgi_process` is over, by it or by an abort.
pub backend_closed_once :
    (garbage : Bool) (u : Upstream)
    → Run (upstream_of garbage) u
    → u.process ≡ finished
    → u.closed ≡ 1
backend_closed_once garbage u h e = ground (arith, Run-IsSafe garbage h)
