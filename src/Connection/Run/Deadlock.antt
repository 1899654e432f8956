-- ===== src/Connection/Run/Deadlock.antt =====
-- Where the guard and the serving thread wait for each other, and that they do so nowhere else.
use xwp_server.Base.{◌≡◌, ◌↔◌, refl, arith, Bool-cases, inl, inr, ◌⊎◌}
use xwp_server.Connection.Run.Sockets.{Reach-IsSafe}
use xwp_server.Connection.Run.{
  Conn, Step, Reach, Runner, Guard, Mutex, unlocked, by_runner, by_guard, idle, serving,
  finalize_lock, finalize_locked, finalize_unlocked, leaving, reuse_lock, reuse_locked,
  reuse_unlocked, sleeping, guard_lock, guard_locked, guard_waiting, run, run_no_pool, run_no_room,
  keep_alive, break, finalize_takes, finalize_gives, next_request, no_request, no_pool, no_room,
  reuse_destroys, leave, reuse_takes, reuse_closes, reuse_closed, reuse, check, guard_takes, spare,
  expire, expire_closed, guard_ends,
}

module _ (c : Conn) (h : Reach c) where
  no_step : (d : Conn) → c.runner ≡ finalize_lock → c.guard ≡ guard_waiting → ¬ Step c d
  no_step _ r g (run e) = ground (arith, Reach-IsSafe h)
  no_step _ r g (run_no_pool e) = ground (arith, Reach-IsSafe h)
  no_step _ r g (run_no_room e) = ground (arith, Reach-IsSafe h)
  no_step _ r g (keep_alive e f) = ground (arith, Reach-IsSafe h)
  no_step _ r g (break e) = ground (arith, Reach-IsSafe h)
  no_step _ r g (finalize_takes e f) = ground (arith, Reach-IsSafe h)
  no_step _ r g (finalize_gives e) = ground (arith, Reach-IsSafe h)
  no_step _ r g (next_request e f) = ground (arith, Reach-IsSafe h)
  no_step _ r g (no_request e f) = ground (arith, Reach-IsSafe h)
  no_step _ r g (no_pool e f) = ground (arith, Reach-IsSafe h)
  no_step _ r g (no_room e f) = ground (arith, Reach-IsSafe h)
  no_step _ r g (leave e) = ground (arith, Reach-IsSafe h)
  no_step _ r g (reuse_takes e f) = ground (arith, Reach-IsSafe h)
  no_step _ r g (reuse_closes e f) = ground (arith, Reach-IsSafe h)
  no_step _ r g (reuse_closed e f) = ground (arith, Reach-IsSafe h)
  no_step _ r g (reuse_destroys e f) = ground (arith, Reach-IsSafe h)
  no_step _ r g (reuse e f) = ground (arith, Reach-IsSafe h)
  no_step _ r g (check e f) = ground (arith, Reach-IsSafe h)
  no_step _ r g (guard_takes e f) = ground (arith, Reach-IsSafe h)
  no_step _ r g (spare e) = ground (arith, Reach-IsSafe h)
  no_step _ r g (expire e f k) = ground (arith, Reach-IsSafe h)
  no_step _ r g (expire_closed e f k) = ground (arith, Reach-IsSafe h)
  no_step _ r g (guard_ends e f) = ground (arith, Reach-IsSafe h)

  -- A thread at a lock goes on once the other does.
  abbrev Moves : Type 0
  Moves = (d : Conn) × Step c d

  abbrev Stuck : Type 0
  Stuck = (c.runner ≡ finalize_lock) × (c.guard ≡ guard_waiting)

  at_finalize :
      c.runner ≡ finalize_lock
      → (m : Mutex) → c.mutex ≡ m
      → (g : Guard) → c.guard ≡ g
      → Moves ⊎ Stuck
  at_finalize r unlocked m g e = inl (_, finalize_takes r m)
  at_finalize r by_runner m g e = absurd (ground (arith, Reach-IsSafe h))
  at_finalize r by_guard m sleeping e = absurd (ground (arith, Reach-IsSafe h))
  at_finalize r by_guard m guard_lock e = absurd (ground (arith, Reach-IsSafe h))
  at_finalize r by_guard m guard_locked e = inl (_, spare e)
  at_finalize r by_guard m guard_waiting e = inr (r, e)

  at_reuse : c.runner ≡ reuse_lock → (m : Mutex) → c.mutex ≡ m → (g : Guard) → c.guard ≡ g → Moves
  at_reuse r unlocked m g e = (_, reuse_takes r m)
  at_reuse r by_runner m g e = absurd (ground (arith, Reach-IsSafe h))
  at_reuse r by_guard m sleeping e = absurd (ground (arith, Reach-IsSafe h))
  at_reuse r by_guard m guard_lock e = absurd (ground (arith, Reach-IsSafe h))
  at_reuse r by_guard m guard_locked e = (_, spare e)
  at_reuse r by_guard m guard_waiting e = (_, guard_ends e (ground (arith, Reach-IsSafe h)))

  closes : c.runner ≡ reuse_locked → Moves
  closes r = elim (Bool-cases c.fd) [
    | inl open_fd ↦ (_, reuse_closes r open_fd)
    | inr closed_fd ↦ (_, reuse_closed r closed_fd)
  ]

  refused : c.runner ≡ finalize_unlocked → Moves
  refused r = elim (Bool-cases c.timedout) [
    | inl over ↦ (_, no_request r over)
    | inr in_time ↦ (_, no_pool r in_time)
  ]

  reuses : c.runner ≡ reuse_unlocked → Moves
  reuses r = elim (Bool-cases c.pool) [
    | inl pool ↦ (_, reuse_destroys r pool)
    | inr none ↦ (_, reuse r none)
  ]

  some_step : (r : Runner) → c.runner ≡ r → Moves ⊎ Stuck
  some_step idle r = inl (_, run r)
  some_step serving r = inl (_, break r)
  some_step finalize_lock r = at_finalize r c.mutex refl c.guard refl
  some_step finalize_locked r = inl (_, finalize_gives r)
  some_step finalize_unlocked r = inl (refused r)
  some_step leaving r = inl (_, leave r)
  some_step reuse_lock r = inl (at_reuse r c.mutex refl c.guard refl)
  some_step reuse_locked r = inl (closes r)
  some_step reuse_unlocked r = inl (reuses r)

  -- A connection takes no step any more exactly if its serving thread, which has passed its test of
  -- `timedout`, is at the lock of `connection_finalize_request`, while the guard waits, with that
  -- lock, for it to leave the loop.
  pub stuck_iff :
      (((d : Conn) × Step c d) → ⊥) ↔ ((c.runner ≡ finalize_lock) × (c.guard ≡ guard_waiting))
  stuck_iff = (forth, λ s. λ t. no_step t.0 s.0 s.1 t.1)
    where
      forth : (Moves → ⊥) → Stuck
      forth none_left = elim (some_step c.runner refl) [
        | inl moves ↦ absurd (none_left moves)
        | inr stuck ↦ stuck
      ]
