-- ===== src/Server.antt =====
-- src/server.c: the threads that accept connections, the list of free connections they share, the
-- thread of the guard, and the flag `running` that `server_destroy` clears. What `server_destroy` does
-- behind that, joining threads that were created detached, has no defined result: its calls are listed.
pub mod Free
pub mod Owned
pub mod Blocked
pub mod Stops
use xwp_server.Base.{
  ℕ, zero, suc, ◌+◌, ◌≡◌, Bool, true, false, List, [], ◌∷◌, ◌++◌, Option, none, some,
}

-- What a listening thread does, by the numbers of the connections: it is before its test of `running`,
-- waits in `accept`, is in `connection_run`, waits there for a mutex that the guard never gives back,
-- or has returned.
pub data Thread : Type 0 where
  testing accepting ended : Thread
  serving blocked : ℕ → Thread

-- The thread of the guard: it is before its test of `running`, calls `connection_check_timeout` on the
-- connections, waits there for ever with a connection's mutex, or has returned.
pub data GuardThread : Type 0 where
  guard_testing guard_checking guard_ended : GuardThread
  guard_blocked : ℕ → GuardThread

-- `server_t`, with its threads.
pub record Server : Type 0 where
  pub free : List ℕ
  pub threads : List Thread
  pub guard : GuardThread
  pub running : Bool

-- The connections `from`, `from + 1`, ... that `server_create` links, one to the next.
unfoldable pub linked : ℕ → ℕ → List ℕ
linked from zero = []
linked from (suc n) = from ∷ linked (from + 1) n

unfoldable pub idle_threads : ℕ → List Thread
idle_threads zero = []
idle_threads (suc n) = testing ∷ idle_threads n

-- `server_create`: `max_threads` connections, all free, as many threads, and the guard.
unfoldable pub server_create : ℕ → Server
unfolding linked idle_threads
server_create max_threads = record {
  free = linked 0 max_threads;
  threads = idle_threads max_threads;
  guard = guard_testing;
  running = true;
}

-- A step out of `accept`, `connection_run` or `connection_check_timeout` is the return of that call; it
-- is the rest of the world's, and in `deadlocks` the two threads', to say when it comes.
pub data Step (s : Server) : Server → Type 0 where
  -- `while(thiz->running)` of `server_listen_proc`
  goes_on :
      (before after : List Thread)
      → s.running ≡ true
      → s.threads ≡ before ++ testing ∷ after
      → Step s (record s { threads = before ++ accepting ∷ after })
  leaves :
      (before after : List Thread)
      → s.running ≡ false
      → s.threads ≡ before ++ testing ∷ after
      → Step s (record s { threads = before ++ ended ∷ after })
  -- `if(fd < 0) continue`
  refused :
      (before after : List Thread)
      → s.threads ≡ before ++ accepting ∷ after
      → Step s (record s { threads = before ++ testing ∷ after })
  -- a thread that has accepted a socket takes the head of the free list, under the mutex
  take :
      (before after : List Thread) (c : ℕ) (rest : List ℕ)
      → s.free ≡ c ∷ rest
      → s.threads ≡ before ++ accepting ∷ after
      → Step s (record s { free = rest; threads = before ++ serving c ∷ after })
  -- one whose `connection_run` has returned puts its connection back, under the mutex
  give_back :
      (before after : List Thread) (c : ℕ)
      → s.threads ≡ before ++ serving c ∷ after
      → Step s (record s { free = c ∷ s.free; threads = before ++ testing ∷ after })
  -- `while(thiz->running)` of `server_guard_proc`, and the end of its round
  guard_goes_on :
      s.running ≡ true → s.guard ≡ guard_testing → Step s (record s { guard = guard_checking })
  guard_leaves :
      s.running ≡ false → s.guard ≡ guard_testing → Step s (record s { guard = guard_ended })
  guard_checked : s.guard ≡ guard_checking → Step s (record s { guard = guard_testing })
  -- where `connection_finalize_request` is at the lock of a connection whose time is over, while
  -- `connection_check_timeout` waits, with that lock, for it to leave its loop
  deadlocks :
      (before after : List Thread) (c : ℕ)
      → s.guard ≡ guard_checking
      → s.threads ≡ before ++ serving c ∷ after
      → Step s (record s { guard = guard_blocked c; threads = before ++ blocked c ∷ after })
  -- `running = 0` of `server_destroy`
  stops : s.running ≡ true → Step s (record s { running = false })

pub data Reach (s : Server) : Server → Type 0 where
  here : Reach s s
  next : {t u : Server} → Reach s t → Step t u → Reach s u

-- The calls and stores of `server_destroy`, in order; the listening threads by their numbers.
pub data DestroyCall : Type 0 where
  close_listen_fd join_listener : ℕ → DestroyCall
  clear_running join_guard destroy_mutex destroy_pool : DestroyCall

unfoldable pub join_listeners : ℕ → ℕ → List DestroyCall
join_listeners i zero = []
join_listeners i (suc n) = join_listener i ∷ join_listeners (i + 1) n

unfoldable pub close_listen : Option ℕ → List DestroyCall
close_listen none = []
close_listen (some fd) = close_listen_fd fd ∷ []

-- `listen_fd`, where it is not negative, and `max_threads`
unfoldable pub server_destroy : Option ℕ → ℕ → List DestroyCall
unfolding join_listeners close_listen
server_destroy listen_fd max_threads =
    close_listen listen_fd
    ++ clear_running
      ∷ join_guard
      ∷ (join_listeners 0 max_threads ++ destroy_mutex ∷ destroy_pool ∷ [])
