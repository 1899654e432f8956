-- ===== src/Uwsgi/Abort/Ends.antt =====
-- An abort and the exchange do not wait for each other.
use xwp_server.Base.{ℕ, zero, suc, ◌+◌, ◌≤◌, ◌<◌, ◌≡◌, refl, Bool, arith, Bool-cases, inl, inr, ◌⊎◌}
use xwp_server.Uwsgi.Abort.Once.{Run-IsSafe}
use xwp_server.Uwsgi.Abort.{
  Process, created, exchanging, process_lock, process_locked, finished, Abort, away, abort_lock,
  abort_locked, abort_waiting, Mutex, unlocked, by_process, by_abort, Upstream, upstream_of, Step,
  begins, done, process_takes, process_closes, process_leaves, not_running, abort_ends, Run, here,
  next,
}

-- How far the exchange is from its end, and an abort from giving the lock back.
abbrev process_rank : Process → ℕ
process_rank created = 4
process_rank exchanging = 3
process_rank process_lock = 2
process_rank process_locked = 1
process_rank finished = 0

abbrev abort_rank : Abort → ℕ
abort_rank abort_locked = 2
abort_rank abort_waiting = 1
abort_rank _ = 0

abbrev rank : Upstream → ℕ
rank u = process_rank u.process + abort_rank u.abort

module _ (garbage : Bool) where
  module _ (u : Upstream) (h : Run (upstream_of garbage) u) where
    abbrev Nears : Type 0
    Nears = (v : Upstream) × Step u v × (rank v < rank u)

    at_lock :
        u.process ≡ process_lock → (m : Mutex) → u.mutex ≡ m → (a : Abort) → u.abort ≡ a → Nears
    at_lock p unlocked m a e = (_, process_takes p m, ground arith)
    at_lock p by_process m a e = absurd (ground (arith, Run-IsSafe garbage h))
    at_lock p by_abort m away e = absurd (ground (arith, Run-IsSafe garbage h))
    at_lock p by_abort m abort_lock e = absurd (ground (arith, Run-IsSafe garbage h))
    at_lock p by_abort m abort_locked e =
        (_, not_running e (ground (arith, Run-IsSafe garbage h)), ground arith)
    at_lock p by_abort m abort_waiting e =
        (_, abort_ends e (ground (arith, Run-IsSafe garbage h)), ground arith)

    leaves : u.process ≡ process_locked → Nears
    leaves p = elim (Bool-cases u.fd) [
      | inl open_fd ↦ (_, process_closes p open_fd, ground arith)
      | inr closed_fd ↦ (_, process_leaves p closed_fd, ground arith)
    ]

    nears : (p : Process) → u.process ≡ p → Nears ⊎ (u.process ≡ finished)
    nears created p = inl (_, begins p, ground arith)
    nears exchanging p = inl (_, done p, ground arith)
    nears process_lock p = inl (at_lock p u.mutex refl u.abort refl)
    nears process_locked p = inl (leaves p)
    nears finished p = inr p

  abbrev CanEnd : Upstream → Type 0
  CanEnd u = (v : Upstream) × Run u v × (v.process ≡ finished)

  before : {u v w : Upstream} → Step u v → Run v w → Run u w
  before s here = next here s
  before s (next r t) = next (before s r) t

  ends_within : (n : ℕ) (u : Upstream) → Run (upstream_of garbage) u → rank u ≤ n → CanEnd u
  ends_within zero u h l = elim (nears u h u.process refl) [
    | inl (v, step, lt) ↦ absurd (omega arith)
    | inr e ↦ (u, here, e)
  ]
  ends_within (suc n) u h l = elim (nears u h u.process refl) [
    | inl (v, step, lt) ↦
        let rest = ends_within n v (next h step) (omega arith) in
        (rest.0, before step rest.1, rest.2)
    | inr e ↦ (u, here, e)
  ]

-- From every state that some order of the steps leads to, the exchange can come to its end: an abort
-- that holds the lock and waits does not keep it from that, and the other way round.
pub exchange_can_end :
    (garbage : Bool) (u : Upstream)
    → Run (upstream_of garbage) u
    → (v : Upstream) × Run u v × (v.process ≡ finished)
exchange_can_end garbage u h = ends_within garbage (rank u) u h (omega arith)
