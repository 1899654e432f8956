-- ===== src/Connection/Run/Sockets.antt =====
-- The sockets that a connection is given, and how often they are closed.
use xwp_server.Base.{ℕ, ◌+◌, ◌≡◌, ◌≤◌, Bool, true, false, arith}
use xwp_server.Connection.Run.{
  ConnState, reuseable, running, before_reuseable, Runner, idle, finalize_locked, reuse_lock,
  reuse_locked, reuse_unlocked, Guard, guard_locked, guard_waiting, by_runner, by_guard, Conn,
  connection_create, Step, Reach, created, then, run, run_no_pool, run_no_room, keep_alive, break,
  finalize_takes, finalize_gives, next_request, no_request, no_pool, no_room, reuse_destroys, leave,
  reuse_takes, reuse_closes, reuse_closed, reuse, check, guard_takes, spare, expire, expire_closed,
  guard_ends,
}

abbrev pub state_of : Runner → ConnState
state_of idle = reuseable
state_of reuse_lock = before_reuseable
state_of reuse_locked = before_reuseable
state_of reuse_unlocked = before_reuseable
state_of _ = running

abbrev pub runner_holds : Runner → Bool
runner_holds finalize_locked = true
runner_holds reuse_locked = true
runner_holds _ = false

abbrev pub guard_holds : Guard → Bool
guard_holds guard_locked = true
guard_holds guard_waiting = true
guard_holds _ = false

-- Past the place where the runner has closed the socket.
abbrev pub is_off : Runner → Bool
is_off idle = true
is_off reuse_unlocked = true
is_off _ = false

-- The socket that is still to be closed, where the guard has not closed it.
abbrev pub owed : Guard → Bool → ℕ
owed guard_waiting fd = 0
owed _ true = 1
owed _ false = 0

-- Who holds the mutex, what the state says of the runner, where the socket is open, and the count of
-- the sockets that were closed or lost.
abbrev pub IsSafe : Conn → Type 0
IsSafe c =
    (c.state ≡ state_of c.runner)
    × (runner_holds c.runner ≡ true → c.mutex ≡ by_runner)
    × (guard_holds c.guard ≡ true → c.mutex ≡ by_guard)
    × (c.mutex ≡ by_runner → runner_holds c.runner ≡ true)
    × (c.mutex ≡ by_guard → guard_holds c.guard ≡ true)
    × (is_off c.runner ≡ true → c.fd ≡ false)
    × (c.state ≡ running → c.fd ≡ true)
    × (c.guard ≡ guard_waiting → (c.fd ≡ true) × (is_off c.runner ≡ false))
    × (c.closed + c.lost + owed c.guard c.fd ≡ c.accepted)

step-IsSafe : {c d : Conn} → IsSafe c → Step c d → IsSafe d
step-IsSafe s (run e) = ground arith
step-IsSafe s (run_no_pool e) = ground arith
step-IsSafe s (run_no_room e) = ground arith
step-IsSafe s (keep_alive e f) = ground arith
step-IsSafe s (break e) = ground arith
step-IsSafe s (finalize_takes e f) = ground arith
step-IsSafe s (finalize_gives e) = ground arith
step-IsSafe s (next_request e f) = ground arith
step-IsSafe s (no_request e f) = ground arith
step-IsSafe s (no_pool e f) = ground arith
step-IsSafe s (no_room e f) = ground arith
step-IsSafe s (leave e) = ground arith
step-IsSafe s (reuse_takes e f) = ground arith
step-IsSafe s (reuse_closes e f) = ground arith
step-IsSafe s (reuse_closed e f) = ground arith
step-IsSafe s (reuse_destroys e f) = ground arith
step-IsSafe s (reuse e f) = ground arith
step-IsSafe s (check e f) = ground arith
step-IsSafe s (guard_takes e f) = ground arith
step-IsSafe s (spare e) = ground arith
step-IsSafe s (expire e f k) = ground arith
step-IsSafe s (expire_closed e f k) = ground arith
step-IsSafe s (guard_ends e f) = ground arith

pub Reach-IsSafe : {c : Conn} → Reach c → IsSafe c
unfolding connection_create
Reach-IsSafe created = ground arith
Reach-IsSafe (then h step) = step-IsSafe (Reach-IsSafe h) step

-- Whenever the connection waits for its next socket, `close` has been called, by its own thread or by
-- the guard and whatever the order of their steps, exactly as often as it was given a socket, less
-- those given to a `connection_run` that failed for want of memory, on which it is not called at all.
pub sockets_closed_once : (c : Conn) → Reach c → c.runner ≡ idle → c.closed + c.lost ≡ c.accepted
sockets_closed_once c h e = ground (arith, Reach-IsSafe h)

-- In no order of the steps is a socket closed twice.
pub closed_le_accepted : (c : Conn) → Reach c → c.closed ≤ c.accepted
closed_le_accepted c h = ground (arith, Reach-IsSafe h)
