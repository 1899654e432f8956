-- ===== src/Master.antt =====
-- src/main.c: the master process, its workers and the signals that it gets: the last part of `main`,
-- `master_main` and `xwp_signal_handler`. A worker itself is in Server.
pub mod Reaped
pub mod Options
pub mod Main
use xwp_server.Base.{
  if◌then◌else◌, ℕ, ◌+◌, ◌≡◌, Bool, true, false, List, [], ◌∷◌, some, none, get_elem?, set,
}

-- What the process behind an element of `s_worker_processes` is: it runs, it has ended and waits to be
-- waited for, or there is none any more.
pub data Worker : Type 0 where
  alive zombie gone : Worker

-- Where the master is: in `sleep`, before the element `i` of its round, or behind its loop.
pub data Place : Type 0 where
  sleeping exited : Place
  visiting : ℕ → Place

-- `s_exit_flag`, `s_child_exited` and `s_worker_processes`
pub record Master : Type 0 where
  pub exit_flag : Bool
  pub child_exited : Bool
  pub workers : List Worker
  pub place : Place

-- The loop of `main`, where `worker_num` was set to 1: the result of its one `fork`.
unfoldable pub start : Bool → Master
start forked = record {
  exit_flag = false;
  child_exited = false;
  workers = if forked then alive ∷ [] else [];
  place = sleeping;
}

pub data Step (m : Master) : Master → Type 0 where
  -- a worker ends: SIGCHLD
  ends :
      (i : ℕ)
      → get_elem? m.workers i ≡ some alive
      → Step m (record m { workers = set m.workers i zombie; child_exited = true })
  -- SIGINT or SIGTERM
  stops : Step m (record m { exit_flag = true })
  -- `s_child_exited = 0`, behind its test; `s_exit_flag` was tested before the sleep
  wakes :
      m.place ≡ sleeping
      → m.child_exited ≡ true
      → Step m (record m { child_exited = false; place = visiting 0 })
  -- `waitpid` returns 0 for a worker that runs, and -1 where there is none
  passes :
      (i : ℕ)
      → m.place ≡ visiting i
      → get_elem? m.workers i ≡ some alive
      → Step m (record m { place = visiting (i + 1) })
  misses :
      (i : ℕ)
      → m.place ≡ visiting i
      → get_elem? m.workers i ≡ some gone
      → Step m (record m { place = visiting (i + 1) })
  -- it returns the process, and a new one is forked, or cannot be
  forks :
      (i : ℕ)
      → m.place ≡ visiting i
      → get_elem? m.workers i ≡ some zombie
      → m.exit_flag ≡ false
      → Step m (record m { workers = set m.workers i alive; place = visiting (i + 1) })
  fails :
      (i : ℕ)
      → m.place ≡ visiting i
      → get_elem? m.workers i ≡ some zombie
      → Step m (record m { workers = set m.workers i gone; place = visiting (i + 1) })
  -- the end of the round, and of the loop
  round :
      (i : ℕ)
      → m.place ≡ visiting i
      → get_elem? m.workers i ≡ none
      → Step m (record m { place = sleeping })
  leaves : m.place ≡ sleeping → m.exit_flag ≡ true → Step m (record m { place = exited })

pub data Reach : Master → Type 0 where
  started : (forked : Bool) → Reach (start forked)
  then : {m n : Master} → Reach m → Step m n → Reach n
