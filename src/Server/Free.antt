-- ===== src/Server/Free.antt =====
-- The free list never runs out.
use xwp_server.Base.{ℕ, zero, suc, ◌+◌, ◌≡◌, ◌≢◌, refl, ap, List, [], ◌∷◌, ◌++◌, length, arith}
use xwp_server.Server.{
  Thread, testing, accepting, ended, serving, blocked, Server, linked, idle_threads, server_create,
  Step, goes_on, leaves, refused, take, give_back, guard_goes_on, guard_leaves, guard_checked,
  deadlocks, stops, Reach, here, next,
}

-- How many threads serve none.
abbrev pub idle_in : List Thread → ℕ
idle_in [] = 0
idle_in (serving c ∷ threads) = idle_in threads
idle_in (blocked c ∷ threads) = idle_in threads
idle_in (testing ∷ threads) = suc (idle_in threads)
idle_in (accepting ∷ threads) = suc (idle_in threads)
idle_in (ended ∷ threads) = suc (idle_in threads)

-- The connections that the threads serve.
abbrev pub served_by : List Thread → List ℕ
served_by [] = []
served_by (serving c ∷ threads) = c ∷ served_by threads
served_by (blocked c ∷ threads) = c ∷ served_by threads
served_by (testing ∷ threads) = served_by threads
served_by (accepting ∷ threads) = served_by threads
served_by (ended ∷ threads) = served_by threads

idle_in-append : (ts us : List Thread) → idle_in (ts ++ us) ≡ idle_in ts + idle_in us
idle_in-append [] us = omega arith
idle_in-append (serving c ∷ ts) us = idle_in-append ts us
idle_in-append (blocked c ∷ ts) us = idle_in-append ts us
idle_in-append (testing ∷ ts) us = omega (arith, idle_in-append ts us)
idle_in-append (accepting ∷ ts) us = omega (arith, idle_in-append ts us)
idle_in-append (ended ∷ ts) us = omega (arith, idle_in-append ts us)

-- There are as many free connections as threads that serve none.
abbrev pub Balanced : Server → Type 0
Balanced s = length s.free ≡ idle_in s.threads

-- One thread of the list changes.
idle_in-change :
    (before after : List Thread) (x y : Thread) (ts : List Thread)
    → ts ≡ before ++ x ∷ after
    → idle_in (before ++ y ∷ after) + idle_in (x ∷ []) ≡ idle_in ts + idle_in (y ∷ [])
idle_in-change before after x y ts e = omega (
  arith,
  ap idle_in e,
  idle_in-append before (x ∷ after),
  idle_in-append before (y ∷ after),
  idle_in-append (x ∷ []) after,
  idle_in-append (y ∷ []) after,
)

Step-Balanced : (s : Server) {t : Server} → Step s t → Balanced s → Balanced t
Step-Balanced s (goes_on before after e f) b =
    omega (arith, idle_in-change before after testing accepting s.threads f)
Step-Balanced s (leaves before after e f) b =
    omega (arith, idle_in-change before after testing ended s.threads f)
Step-Balanced s (refused before after f) b =
    omega (arith, idle_in-change before after accepting testing s.threads f)
Step-Balanced s (take before after c rest e f) b =
    omega (arith, ap length e, idle_in-change before after accepting (serving c) s.threads f)
Step-Balanced s (give_back before after c f) b =
    omega (arith, idle_in-change before after (serving c) testing s.threads f)
Step-Balanced s (guard_goes_on e f) b = b
Step-Balanced s (guard_leaves e f) b = b
Step-Balanced s (guard_checked f) b = b
Step-Balanced s (deadlocks before after c e f) b =
    omega (arith, idle_in-change before after (serving c) (blocked c) s.threads f)
Step-Balanced s (stops e) b = b

length-linked : (from n : ℕ) → length (linked from n) ≡ n
unfolding linked
length-linked from zero = refl
length-linked from (suc n) = ap suc (length-linked (from + 1) n)

idle_in-idle_threads : (n : ℕ) → idle_in (idle_threads n) ≡ n
unfolding idle_threads
idle_in-idle_threads zero = refl
idle_in-idle_threads (suc n) = ap suc (idle_in-idle_threads n)

server_create-Balanced : (n : ℕ) → Balanced (server_create n)
unfolding server_create
server_create-Balanced n = omega (arith, length-linked 0 n, idle_in-idle_threads n)

Reach-Balanced : {s t : Server} → Balanced s → Reach s t → Balanced t
Reach-Balanced b here = b
Reach-Balanced b (next r st) = Step-Balanced _ st (Reach-Balanced b r)

-- After any interleaving of the threads' steps, whenever a thread waits in `accept` there is a free
-- connection for it, so `assert(thiz->free_connections != NULL)` does not fail.
pub free_connections-ne-nil :
    (n : ℕ) (s : Server) (before after : List Thread)
    → Reach (server_create n) s
    → s.threads ≡ before ++ accepting ∷ after
    → s.free ≢ []
free_connections-ne-nil n s before after r f e = omega (
  arith,
  Reach-Balanced (server_create-Balanced n) r,
  idle_in-append before (accepting ∷ after),
  ap idle_in f,
  ap length e,
)
