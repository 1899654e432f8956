-- ===== src/Connection/Run/Pools.antt =====
-- The pools of a connection's requests.
use xwp_server.Base.{ℕ, ◌+◌, ◌≡◌, Bool, true, false, arith}
use xwp_server.Connection.Run.{
  Conn, connection_create, Step, Reach, created, then, Runner, idle, serving, finalize_lock,
  finalize_locked, finalize_unlocked, run, run_no_pool, run_no_room, keep_alive, break,
  finalize_takes, finalize_gives, next_request, no_request, no_pool, no_room, leave, reuse_takes,
  reuse_closes, reuse_closed, reuse_destroys, reuse, check, guard_takes, spare, expire,
  expire_closed, guard_ends,
}

-- In the loop of `connection_run`.
abbrev is_looping : Runner → Bool
is_looping serving = true
is_looping finalize_lock = true
is_looping finalize_locked = true
is_looping finalize_unlocked = true
is_looping _ = false

abbrev is_idle : Runner → Bool
is_idle idle = true
is_idle _ = false

-- The pool that `request_pool` still points to.
abbrev pub kept : Bool → ℕ
kept true = 1
kept false = 0

-- There is no pool while the connection waits, and one otherwise before it is destroyed for good.
abbrev pub HasPool : Conn → Type 0
HasPool c =
    (is_idle c.runner ≡ true → c.pool ≡ false)
    × (is_looping c.runner ≡ true → c.pool ≡ true)
    × (c.destroyed + kept c.pool ≡ c.created + c.lapses)

step-HasPool : {c d : Conn} → HasPool c → Step c d → HasPool d
step-HasPool s (run e) = ground arith
step-HasPool s (run_no_pool e) = ground arith
step-HasPool s (run_no_room e) = ground arith
step-HasPool s (keep_alive e f) = ground arith
step-HasPool s (break e) = ground arith
step-HasPool s (finalize_takes e f) = ground arith
step-HasPool s (finalize_gives e) = ground arith
step-HasPool s (next_request e f) = ground arith
step-HasPool s (no_request e f) = ground arith
step-HasPool s (no_pool e f) = ground arith
step-HasPool s (no_room e f) = ground arith
step-HasPool s (leave e) = ground arith
step-HasPool s (reuse_takes e f) = ground arith
step-HasPool s (reuse_closes e f) = ground arith
step-HasPool s (reuse_closed e f) = ground arith
step-HasPool s (reuse_destroys e f) = ground arith
step-HasPool s (reuse e f) = ground arith
step-HasPool s (check e f) = ground arith
step-HasPool s (guard_takes e f) = ground arith
step-HasPool s (spare e) = ground arith
step-HasPool s (expire e f k) = ground arith
step-HasPool s (expire_closed e f k) = ground arith
step-HasPool s (guard_ends e f) = ground arith

pub Reach-HasPool : {c : Conn} → Reach c → HasPool c
unfolding connection_create
Reach-HasPool created = ground arith
Reach-HasPool (then h step) = step-HasPool (Reach-HasPool h) step

-- Whenever the connection waits for its next socket, its request pools were destroyed once each, and
-- once more for each time that `connection_finalize_request` has returned because of `timedout`.
pub destroyed_once_and_lapses :
    (c : Conn) → Reach c → c.runner ≡ idle → c.destroyed ≡ c.created + c.lapses
destroyed_once_and_lapses c h e = ground (arith, Reach-HasPool h)
