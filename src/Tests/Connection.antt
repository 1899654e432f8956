-- ===== src/Tests/Connection.antt =====
-- The threads of a connection, in concrete orders of their steps.
use xwp_server.Base.{◌+◌, ◌≡◌, ◌↔◌, refl, true, false}
use xwp_server.Connection.Run.Deadlock.{stuck_iff}
use xwp_server.Connection.Run.Pools.{destroyed_once_and_lapses}
use xwp_server.Connection.Run.Sockets.{sockets_closed_once}
use xwp_server.Connection.Run.{
  finalize_takes, finalize_gives, no_request, running, reuseable, Conn, connection_create, Step,
  Reach, created, then, run, check, keep_alive, guard_takes, expire, break, leave, guard_ends,
  reuse_takes, reuse_closed, reuse_destroys, finalize_lock, guard_waiting, by_guard, unlocked, idle,
  sleeping, leaving,
}

-- The time is over between the test of `timedout` and the lock.
abbrev caught : Conn
caught = record {
  state = running;
  timedout = true;
  fd = true;
  mutex = by_guard;
  runner = finalize_lock;
  guard = guard_waiting;
  accepted = 1;
  closed = 1;
  lost = 0;
  pool = true;
  created = 1;
  destroyed = 0;
  lapses = 0;
}

caught-Reach : Reach caught
unfolding connection_create
caught-Reach =
    then
      (then (then (then (then created (run refl)) (check refl refl)) (keep_alive refl refl))
        (guard_takes refl refl))
      (expire refl refl refl)

stuck_iff_example :
    (((d : Conn) × Step caught d) → ⊥)
    ↔ ((caught.runner ≡ finalize_lock) × (caught.guard ≡ guard_waiting))
stuck_iff_example = stuck_iff caught caught-Reach

-- The time is over while a request is served.
abbrev over : Conn
over = record {
  state = reuseable;
  timedout = false;
  fd = false;
  mutex = unlocked;
  runner = idle;
  guard = sleeping;
  accepted = 1;
  closed = 1;
  lost = 0;
  pool = false;
  created = 1;
  destroyed = 1;
  lapses = 0;
}

over-Reach : Reach over
unfolding connection_create
over-Reach =
    let expired =
      then (then (then (then created (run refl)) (check refl refl)) (guard_takes refl refl))
        (expire refl refl refl) in
    let left = then (then (then expired (break refl)) (leave refl)) (guard_ends refl refl) in
    then (then (then left (reuse_takes refl refl)) (reuse_closed refl refl))
      (reuse_destroys refl refl)

sockets_closed_once_example : over.closed + over.lost ≡ over.accepted
sockets_closed_once_example = sockets_closed_once over over-Reach refl

-- The time is over while the pool is destroyed, after the mutex was released.
abbrev lapsed : Conn
lapsed = record over { created = 1; destroyed = 2; lapses = 1 }

lapsed-Reach : Reach lapsed
unfolding connection_create
lapsed-Reach =
    let released =
      then
        (then (then (then (then created (run refl)) (check refl refl)) (keep_alive refl refl))
          (finalize_takes refl refl))
        (finalize_gives refl) in
    let expired = then (then released (guard_takes refl refl)) (expire refl refl refl) in
    let left =
      then (then (then expired (no_request refl refl)) (leave refl)) (guard_ends refl refl) in
    then (then (then left (reuse_takes refl refl)) (reuse_closed refl refl))
      (reuse_destroys refl refl)

destroyed_once_and_lapses_example : lapsed.destroyed ≡ lapsed.created + lapsed.lapses
destroyed_once_and_lapses_example = destroyed_once_and_lapses lapsed lapsed-Reach refl

-- The loop has been left, with the socket open.
abbrev left_loop : Conn
left_loop = record {
  state = running;
  timedout = false;
  fd = true;
  mutex = unlocked;
  runner = leaving;
  guard = sleeping;
  accepted = 1;
  closed = 0;
  lost = 0;
  pool = true;
  created = 1;
  destroyed = 0;
  lapses = 0;
}
