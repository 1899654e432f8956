-- ===== src/Uwsgi/Abort.antt =====
-- `upstream_uwsgi_process` and `upstream_uwsgi_abort` of src/module_uwsgi.c as two threads: the one
-- that serves the request, and the guard, which may call the abort any number of times. They share
-- `fd`, `running` and the mutex of `upstream_uwsgi_priv_t`.
pub mod Once
pub mod Ends
use xwp_server.Base.{ℕ, ◌+◌, ◌≡◌, Bool, true, false}

-- Where the serving thread is in `upstream_uwsgi_process`: not in it yet, at the exchange, at the lock
-- behind `running = 0`, holding it, or behind it.
pub data Process : Type 0 where
  created exchanging process_lock process_locked finished : Process

-- Where the guard is in `upstream_uwsgi_abort`: not in it, at the lock, holding it, or at
-- `while(running)` with the lock.
pub data Abort : Type 0 where
  away abort_lock abort_locked abort_waiting : Abort

pub data Mutex : Type 0 where
  unlocked by_process by_abort : Mutex

-- `fd` says whether it is a socket; `closed` counts the calls of `close`.
pub record Upstream : Type 0 where
  pub process : Process
  pub abort : Abort
  pub mutex : Mutex
  pub running : Bool
  pub fd : Bool
  pub closed : ℕ

-- `upstream_uwsgi_create`, whose `connect_remote` succeeded. It does not set `running`, which has the
-- value that is in the memory.
unfoldable pub upstream_of : Bool → Upstream
upstream_of garbage = record {
  process = created;
  abort = away;
  mutex = unlocked;
  running = garbage;
  fd = true;
  closed = 0;
}

pub data Step (u : Upstream) : Upstream → Type 0 where
  begins : u.process ≡ created → Step u (record u { process = exchanging; running = true })
  -- `DONE`, after whatever part of the exchange
  done : u.process ≡ exchanging → Step u (record u { process = process_lock; running = false })
  process_takes :
      u.process ≡ process_lock
      → u.mutex ≡ unlocked
      → Step u (record u { process = process_locked; mutex = by_process })
  -- with `if(fd >= 0) close(fd)`
  process_closes :
      u.process ≡ process_locked
      → u.fd ≡ true
      → Step u
          (record u { process = finished; mutex = unlocked; fd = false; closed = u.closed + 1 })
  process_leaves :
      u.process ≡ process_locked
      → u.fd ≡ false
      → Step u (record u { process = finished; mutex = unlocked })
  calls : u.abort ≡ away → Step u (record u { abort = abort_lock })
  abort_takes :
      u.abort ≡ abort_lock
      → u.mutex ≡ unlocked
      → Step u (record u { abort = abort_locked; mutex = by_abort })
  -- `shutdown` and `close`
  abort_closes :
      u.abort ≡ abort_locked
      → u.fd ≡ true
      → u.running ≡ true
      → Step u (record u { abort = abort_waiting; fd = false; closed = u.closed + 1 })
  no_socket :
      u.abort ≡ abort_locked → u.fd ≡ false → Step u (record u { abort = away; mutex = unlocked })
  not_running :
      u.abort ≡ abort_locked
      → u.running ≡ false
      → Step u (record u { abort = away; mutex = unlocked })
  -- `running` has become 0
  abort_ends :
      u.abort ≡ abort_waiting
      → u.running ≡ false
      → Step u (record u { abort = away; mutex = unlocked })

pub data Run (u : Upstream) : Upstream → Type 0 where
  here : Run u u
  next : {v w : Upstream} → Run u v → Step v w → Run u w
