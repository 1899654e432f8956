-- ===== src/Connection/Run.antt =====
-- `connection_run`, `connection_finalize_request`, `connection_reusable` and
-- `connection_check_timeout` of src/connection.c: the thread that serves a connection and the guard
-- that times it out, which share its fields and its mutex. What a request does in between touches none
-- of these, nor does `upstream_abort`, which the guard and `connection_finalize_request` call with the
-- mutex: it is in Uwsgi/Abort.antt.
pub mod Sockets
pub mod Pools
pub mod Deadlock
pub mod Close
use xwp_server.Base.{ℕ, ◌+◌, ◌≡◌, Bool, true, false}

-- `connection_state_e`
pub data ConnState : Type 0 where
  reuseable running before_reuseable unreuseable : ConnState

-- Where the serving thread is: it waits for `connection_run`, serves a request, is at the lock of
-- `connection_finalize_request`, holds it, has released it, has left the loop, or is at the lock of
-- `connection_reusable`, holds it, or has released it.
pub data Runner : Type 0 where
  idle serving finalize_lock finalize_locked finalize_unlocked : Runner
  leaving reuse_lock reuse_locked reuse_unlocked : Runner

-- Where the guard is: before its first test of the state, at the lock, holding it, or in the loop
-- that waits for the state to change, holding it.
pub data Guard : Type 0 where
  sleeping guard_lock guard_locked guard_waiting : Guard

pub data Mutex : Type 0 where
  unlocked by_runner by_guard : Mutex

-- The fields that both threads use; `fd` says whether it is a socket. `accepted` counts the sockets
-- that the connection was given, `closed` the calls of `close`, and `lost` the sockets that were given
-- to a `connection_run` that failed: neither the connection nor its caller keeps or closes them. `pool` says whether `request_pool`
-- is not NULL; `created` counts the pools that it was given, `destroyed` the calls of `pool_destroy` on
-- it, and `lapses` the returns of `connection_finalize_request` because of `timedout`.
pub record Conn : Type 0 where
  pub state : ConnState
  pub timedout : Bool
  pub fd : Bool
  pub mutex : Mutex
  pub runner : Runner
  pub guard : Guard
  pub accepted : ℕ
  pub closed : ℕ
  pub lost : ℕ
  pub pool : Bool
  pub created : ℕ
  pub destroyed : ℕ
  pub lapses : ℕ

-- `connection_create`
unfoldable pub connection_create : Conn
connection_create = record {
  state = reuseable;
  timedout = false;
  fd = false;
  mutex = unlocked;
  runner = idle;
  guard = sleeping;
  accepted = 0;
  closed = 0;
  lost = 0;
  pool = false;
  created = 0;
  destroyed = 0;
  lapses = 0;
}

-- The steps. The loop of the guard that waits takes no step until the state has changed.
pub data Step (c : Conn) : Conn → Type 0 where
  -- `connection_run`, with a new socket, where its two allocations succeed
  run :
      c.runner ≡ idle
      → Step c (record c {
        state = running;
        fd = true;
        runner = serving;
        accepted = c.accepted + 1;
        pool = true;
        created = c.created + 1;
      })
  -- and where there is no pool, or no request in it: its result 0
  run_no_pool : c.runner ≡ idle → Step c (record c { accepted = c.accepted + 1; lost = c.lost + 1 })
  run_no_room :
      c.runner ≡ idle
      → Step c (record c {
        accepted = c.accepted + 1;
        lost = c.lost + 1;
        pool = false;
        created = c.created + 1;
        destroyed = c.destroyed + 1;
      })
  -- `if(keep_alive && !timedout) connection_finalize_request`
  keep_alive :
      c.runner ≡ serving → c.timedout ≡ false → Step c (record c { runner = finalize_lock })
  -- the other ends of a turn
  break : c.runner ≡ serving → Step c (record c { runner = leaving })
  finalize_takes :
      c.runner ≡ finalize_lock
      → c.mutex ≡ unlocked
      → Step c (record c { runner = finalize_locked; mutex = by_runner })
  finalize_gives :
      c.runner ≡ finalize_locked
      → Step c (record c { runner = finalize_unlocked; mutex = unlocked })
  -- it destroys the pool: its result 1, and 0 where `timedout` is set
  next_request :
      c.runner ≡ finalize_unlocked
      → c.timedout ≡ false
      → Step c (record c { runner = serving; destroyed = c.destroyed + 1; created = c.created + 1 })
  no_request :
      c.runner ≡ finalize_unlocked
      → c.timedout ≡ true
      → Step c (record c { runner = leaving; destroyed = c.destroyed + 1; lapses = c.lapses + 1 })
  -- where there is no new pool, and where there is no request in the new one
  no_pool :
      c.runner ≡ finalize_unlocked
      → c.timedout ≡ false
      → Step c (record c { runner = leaving; destroyed = c.destroyed + 1; pool = false })
  no_room :
      c.runner ≡ finalize_unlocked
      → c.timedout ≡ false
      → Step c (record c {
        runner = leaving;
        destroyed = c.destroyed + 2;
        created = c.created + 1;
        pool = false;
      })
  -- `state = CONNECTION_BEFORE_REUSEABLE`
  leave : c.runner ≡ leaving → Step c (record c { runner = reuse_lock; state = before_reuseable })
  reuse_takes :
      c.runner ≡ reuse_lock
      → c.mutex ≡ unlocked
      → Step c (record c { runner = reuse_locked; mutex = by_runner })
  -- with `if(fd >= 0) close(fd)`
  reuse_closes :
      c.runner ≡ reuse_locked
      → c.fd ≡ true
      → Step c (record c {
        runner = reuse_unlocked;
        mutex = unlocked;
        timedout = false;
        fd = false;
        closed = c.closed + 1;
      })
  reuse_closed :
      c.runner ≡ reuse_locked
      → c.fd ≡ false
      → Step c (record c { runner = reuse_unlocked; mutex = unlocked; timedout = false })
  -- `if(request_pool != NULL) pool_destroy(request_pool)`, `state = CONNECTION_REUSEABLE`
  reuse_destroys :
      c.runner ≡ reuse_unlocked
      → c.pool ≡ true
      → Step c
          (record c { runner = idle; state = reuseable; pool = false; destroyed = c.destroyed + 1 })
  reuse :
      c.runner ≡ reuse_unlocked
      → c.pool ≡ false
      → Step c (record c { runner = idle; state = reuseable })
  -- `connection_check_timeout`
  check : c.guard ≡ sleeping → c.state ≡ running → Step c (record c { guard = guard_lock })
  guard_takes :
      c.guard ≡ guard_lock
      → c.mutex ≡ unlocked
      → Step c (record c { guard = guard_locked; mutex = by_guard })
  -- the state has changed, or the time is not over
  spare : c.guard ≡ guard_locked → Step c (record c { guard = sleeping; mutex = unlocked })
  -- `timedout = 1`, with `shutdown` and `close`
  expire :
      c.guard ≡ guard_locked
      → c.state ≡ running
      → c.fd ≡ true
      → Step c (record c { guard = guard_waiting; timedout = true; closed = c.closed + 1 })
  expire_closed :
      c.guard ≡ guard_locked
      → c.state ≡ running
      → c.fd ≡ false
      → Step c (record c { guard = sleeping; mutex = unlocked; timedout = true })
  -- `fd = -1`
  guard_ends :
      c.guard ≡ guard_waiting
      → c.state ≡ before_reuseable
      → Step c (record c { guard = sleeping; mutex = unlocked; fd = false })

pub data Reach : Conn → Type 0 where
  created : Reach connection_create
  then : {c d : Conn} → Reach c → Step c d → Reach d
