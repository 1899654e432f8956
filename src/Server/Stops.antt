-- ===== src/Server/Stops.antt =====
-- What becomes of the threads once `running` is 0.
use mathlib.Core.List.{append_assoc}
use xwp_server.Base.{
  ℕ, zero, suc, ◌+◌, ◌*◌, ◌≤◌, ◌<◌, ◌≡◌, ◌≢◌, refl, ap, ◌∙◌, sym, false, List, [], ◌∷◌, ◌++◌,
  length, arith, true≢false, inl, inr, ◌⊎◌,
}
use xwp_server.Server.Blocked.{blocked_in, guard_on, Reach-Paired, AllOver, AllOver-served_by}
use xwp_server.Server.Owned.{count, connection_owned_once}
use xwp_server.Server.{
  Thread, testing, accepting, ended, serving, blocked, GuardThread, guard_testing, guard_checking,
  guard_ended, guard_blocked, Server, idle_threads, server_create, Step, goes_on, leaves, refused,
  take, give_back, guard_goes_on, guard_leaves, guard_checked, deadlocks, stops, Reach, here, next,
}

-- How many steps each thread has left when no round begins any more.
abbrev pub left : List Thread → ℕ
left [] = 0
left (accepting ∷ threads) = 3 + left threads
left (serving c ∷ threads) = 2 + left threads
left (testing ∷ threads) = 1 + left threads
left (ended ∷ threads) = left threads
left (blocked c ∷ threads) = left threads

abbrev pub guard_left : GuardThread → ℕ
guard_left guard_checking = 2
guard_left guard_testing = 1
guard_left guard_ended = 0
guard_left (guard_blocked c) = 0

left-append : (ts us : List Thread) → left (ts ++ us) ≡ left ts + left us
left-append [] us = omega arith
left-append (accepting ∷ ts) us = omega (arith, left-append ts us)
left-append (serving c ∷ ts) us = omega (arith, left-append ts us)
left-append (testing ∷ ts) us = omega (arith, left-append ts us)
left-append (ended ∷ ts) us = left-append ts us
left-append (blocked c ∷ ts) us = left-append ts us

left-change :
    (before after : List Thread) (x y : Thread) (ts : List Thread)
    → ts ≡ before ++ x ∷ after
    → left (before ++ y ∷ after) + left (x ∷ []) ≡ left ts + left (y ∷ [])
left-change before after x y ts e = omega (
  arith,
  ap left e,
  left-append before (x ∷ after),
  left-append before (y ∷ after),
  left-append (x ∷ []) after,
  left-append (y ∷ []) after,
)

length-change :
    (before after : List Thread) (x y : Thread) (ts : List Thread)
    → ts ≡ before ++ x ∷ after
    → length (before ++ y ∷ after) ≡ length ts
length-change before after x y ts e = length_swap before ∙ sym (ap length e)
  where
    length_swap :
        (before : List Thread) → length (before ++ y ∷ after) ≡ length (before ++ x ∷ after)
    length_swap [] = refl
    length_swap (z ∷ before) = ap suc (length_swap before)

abbrev total : Server → ℕ
total s = left s.threads + guard_left s.guard

-- Every step takes one away from what is left, and no step sets `running` again.
Step-total :
    (s : Server) {t : Server}
    → Step s t
    → s.running ≡ false
    → (total t < total s) × (t.running ≡ false)
Step-total s (goes_on before after e f) off = absurd (true≢false (sym e ∙ off))
Step-total s (leaves before after e f) off =
    (omega (arith, left-change before after testing ended s.threads f), off)
Step-total s (refused before after f) off =
    (omega (arith, left-change before after accepting testing s.threads f), off)
Step-total s (take before after c rest e f) off =
    (omega (arith, left-change before after accepting (serving c) s.threads f), off)
Step-total s (give_back before after c f) off =
    (omega (arith, left-change before after (serving c) testing s.threads f), off)
Step-total s (guard_goes_on e f) off = absurd (true≢false (sym e ∙ off))
Step-total s (guard_leaves e f) off = (ground arith, off)
Step-total s (guard_checked f) off = (ground arith, off)
Step-total s (deadlocks before after c e f) off = (
  omega (arith, ap guard_left e, left-change before after (serving c) (blocked c) s.threads f),
  off,
)
Step-total s (stops e) off = absurd (true≢false (sym e ∙ off))

-- A run of so many steps.
pub data Steps (s : Server) : ℕ → Server → Type 0 where
  none_yet : Steps s 0 s
  one_more : {k : ℕ} {t u : Server} → Steps s k t → Step t u → Steps s (suc k) u

Steps-total :
    (s : Server) (k : ℕ) {t : Server}
    → Steps s k t
    → s.running ≡ false
    → (total t + k ≤ total s) × (t.running ≡ false)
Steps-total s zero none_yet off = (omega arith, off)
Steps-total s (suc k) (one_more {t} r st) off =
    let before = Steps-total s k r off in
    let after = Step-total t st before.1 in (omega arith, after.1)

Steps-Reach : (s r : Server) (k : ℕ) {t : Server} → Reach s r → Steps r k t → Reach s t
Steps-Reach s r zero h none_yet = h
Steps-Reach s r (suc k) h (one_more p st) = next (Steps-Reach s r k h p) st

Step-length : (s : Server) {t : Server} → Step s t → length t.threads ≡ length s.threads
Step-length s (goes_on before after e f) = length-change before after testing accepting s.threads f
Step-length s (leaves before after e f) = length-change before after testing ended s.threads f
Step-length s (refused before after f) = length-change before after accepting testing s.threads f
Step-length s (take before after c rest e f) =
    length-change before after accepting (serving c) s.threads f
Step-length s (give_back before after c f) =
    length-change before after (serving c) testing s.threads f
Step-length s (guard_goes_on e f) = refl
Step-length s (guard_leaves e f) = refl
Step-length s (guard_checked f) = refl
Step-length s (deadlocks before after c e f) =
    length-change before after (serving c) (blocked c) s.threads f
Step-length s (stops e) = refl

Reach-length : (s : Server) {t : Server} → Reach s t → length t.threads ≡ length s.threads
Reach-length s here = refl
Reach-length s (next {t} r st) = Step-length t st ∙ Reach-length s r

length-idle_threads : (n : ℕ) → length (idle_threads n) ≡ n
unfolding idle_threads
length-idle_threads zero = refl
length-idle_threads (suc n) = ap suc (length-idle_threads n)

left-bound : (ts : List Thread) → left ts ≤ 3 * length ts
left-bound [] = omega arith
left-bound (accepting ∷ ts) = omega (arith, left-bound ts)
left-bound (serving c ∷ ts) = omega (arith, left-bound ts)
left-bound (testing ∷ ts) = omega (arith, left-bound ts)
left-bound (ended ∷ ts) = omega (arith, left-bound ts)
left-bound (blocked c ∷ ts) = omega (arith, left-bound ts)

abbrev pub Moves : Server → Type 0
Moves s = (t : Server) × Step s t

module _ (s : Server) (off : s.running ≡ false) where
  -- A listening thread that has not returned and is not blocked can go on.
  thread_moves : (before ts : List Thread) → s.threads ≡ before ++ ts → Moves s ⊎ AllOver ts
  thread_moves before [] e = inr tt
  thread_moves before (accepting ∷ ts) e = inl (_, refused before ts e)
  thread_moves before (testing ∷ ts) e = inl (_, leaves before ts off e)
  thread_moves before (serving c ∷ ts) e = inl (_, give_back before ts c e)
  thread_moves before (ended ∷ ts) e =
      thread_moves (before ++ ended ∷ []) ts (e ∙ sym (append_assoc before (ended ∷ []) ts))
  thread_moves before (blocked c ∷ ts) e =
      thread_moves (before ++ blocked c ∷ []) ts (e ∙ sym (append_assoc before (blocked c ∷ []) ts))

  guard_moves :
      (g : GuardThread)
      → s.guard ≡ g
      → Moves s ⊎ ((s.guard ≡ guard_ended) ⊎ ((c : ℕ) × (s.guard ≡ guard_blocked c)))
  guard_moves guard_testing e = inl (_, guard_leaves off e)
  guard_moves guard_checking e = inl (_, guard_checked e)
  guard_moves guard_ended e = inr (inl e)
  guard_moves (guard_blocked c) e = inr (inr (c, e))

-- All threads have returned, and each of the `n` connections is free, once.
abbrev pub IsFinished : ℕ → Server → Type 0
IsFinished n s =
    AllOver s.threads
    × (blocked_in s.threads ≡ [])
    × (s.guard ≡ guard_ended)
    × ((c : ℕ) → c < n → count c s.free ≡ 1)

-- The guard and one thread wait for each other on a connection; all other threads have returned, and
-- each other connection is free, once.
abbrev pub IsDeadlocked : ℕ → Server → Type 0
IsDeadlocked n s =
    (d : ℕ) × (s.guard ≡ guard_blocked d)
    × (blocked_in s.threads ≡ d ∷ [])
    × AllOver s.threads
    × ((c : ℕ) → c < n → c ≢ d → count c s.free ≡ 1)

over_free :
    (n c : ℕ) (s : Server) (waiting : List ℕ)
    → Reach (server_create n) s
    → AllOver s.threads
    → blocked_in s.threads ≡ waiting
    → count c waiting ≡ 0
    → c < n
    → count c s.free ≡ 1
over_free n c s waiting r e f z h =
    omega
      (arith, connection_owned_once n c s h r, ap (count c) (AllOver-served_by s.threads e ∙ f), z)

goes_on_or_over :
    (n : ℕ) (s : Server)
    → Reach (server_create n) s
    → s.running ≡ false
    → Moves s ⊎ (IsFinished n s ⊎ IsDeadlocked n s)
goes_on_or_over n s r off = elim (thread_moves s off [] s.threads refl) [
  | inl moves ↦ inl moves
  | inr e ↦ elim (guard_moves s off s.guard refl) [
    | inl moves ↦ inl moves
    | inr (inl g) ↦
        let free = Reach-Paired n r ∙ ap guard_on g in
        inr (inl (e, free, g, λ c h. over_free n c s [] r e free refl h))
    | inr (inr (d, g)) ↦
        let on_d = Reach-Paired n r ∙ ap guard_on g in
        inr (inr (d, g, on_d, e, λ c h ne. over_free n c s (d ∷ []) r e on_d (ground arith) h))
  ]
]

guard_bound : (g : GuardThread) → guard_left g ≤ 2
guard_bound guard_testing = omega arith
guard_bound guard_checking = omega arith
guard_bound guard_ended = omega arith
guard_bound (guard_blocked c) = omega arith

-- From any state with `running` 0 that the threads of a server come to, they take at most `3 * n + 2`
-- steps more, if `n` is `max_threads`. After any number of steps one of them can go on, once the call
-- that it is in returns; or all of them have returned, the guard as well, and each connection is on
-- the free list, once; or the guard and one thread wait for each other on a connection, while all
-- other threads have returned, and each other connection is on the free list, once.
pub server_stops :
    (n k : ℕ) (s t : Server)
    → Reach (server_create n) s
    → s.running ≡ false
    → Steps s k t
    → (k ≤ 3 * n + 2) × (Moves t ⊎ (IsFinished n t ⊎ IsDeadlocked n t))
unfolding server_create
server_stops n k s t r off p =
    let rest = Steps-total s k p off in
    let size = Reach-length (server_create n) r ∙ length-idle_threads n in
    (
      omega (arith, left-bound s.threads, guard_bound s.guard),
      goes_on_or_over n t (Steps-Reach (server_create n) s k r p) rest.1,
    )
