-- ===== src/Server/Blocked.antt =====
-- The threads that wait for ever, in `connection_finalize_request` and `connection_check_timeout`.
use xwp_server.Base.{ℕ, zero, suc, ◌≡◌, refl, ap, ◌∙◌, sym, List, [], ◌∷◌, ◌++◌}
use xwp_server.Server.Free.{served_by}
use xwp_server.Server.{
  Thread, testing, accepting, ended, serving, blocked, GuardThread, guard_testing, guard_checking,
  guard_ended, guard_blocked, Server, idle_threads, server_create, Step, goes_on, leaves, refused,
  take, give_back, guard_goes_on, guard_leaves, guard_checked, deadlocks, stops, Reach, here, next,
}

-- The connections on which threads are blocked, and the one on which the guard is.
abbrev pub blocked_in : List Thread → List ℕ
blocked_in [] = []
blocked_in (blocked c ∷ threads) = c ∷ blocked_in threads
blocked_in (accepting ∷ threads) = blocked_in threads
blocked_in (testing ∷ threads) = blocked_in threads
blocked_in (serving c ∷ threads) = blocked_in threads
blocked_in (ended ∷ threads) = blocked_in threads

abbrev pub guard_on : GuardThread → List ℕ
guard_on (guard_blocked c) = c ∷ []
guard_on guard_testing = []
guard_on guard_checking = []
guard_on guard_ended = []

blocked_in-append : (ts us : List Thread) → blocked_in (ts ++ us) ≡ blocked_in ts ++ blocked_in us
blocked_in-append [] us = refl
blocked_in-append (blocked c ∷ ts) us = ap (λ r. c ∷ r) (blocked_in-append ts us)
blocked_in-append (accepting ∷ ts) us = blocked_in-append ts us
blocked_in-append (testing ∷ ts) us = blocked_in-append ts us
blocked_in-append (serving c ∷ ts) us = blocked_in-append ts us
blocked_in-append (ended ∷ ts) us = blocked_in-append ts us

-- A thread goes from one place to another where it is not blocked.
blocked_in-change :
    (before after : List Thread) (x y : Thread) (ts : List Thread)
    → blocked_in (y ∷ after) ≡ blocked_in (x ∷ after)
    → ts ≡ before ++ x ∷ after
    → blocked_in (before ++ y ∷ after) ≡ blocked_in ts
blocked_in-change before after x y ts same e =
    blocked_in-append before (y ∷ after)
    ∙ ap (λ l. blocked_in before ++ l) same
    ∙ sym (blocked_in-append before (x ∷ after))
    ∙ sym (ap blocked_in e)

both_nil : (xs ys : List ℕ) → xs ++ ys ≡ [] → (xs ≡ []) × (ys ≡ [])
both_nil [] ys e = (refl, e)
both_nil (x ∷ xs) ys e = cc

-- One thread at most is blocked: on the guard's connection.
abbrev Paired : Server → Type 0
Paired s = blocked_in s.threads ≡ guard_on s.guard

first_blocked :
    (before after : List Thread) (c : ℕ) (ts : List Thread)
    → blocked_in ts ≡ []
    → ts ≡ before ++ serving c ∷ after
    → blocked_in (before ++ blocked c ∷ after) ≡ c ∷ []
first_blocked before after c ts none e =
    let apart =
      both_nil (blocked_in before) (blocked_in after)
        (sym (blocked_in-append before (serving c ∷ after)) ∙ sym (ap blocked_in e) ∙ none) in
    blocked_in-append before (blocked c ∷ after)
    ∙ ap (λ l. l ++ c ∷ blocked_in after) apart.0
    ∙ ap (λ l. c ∷ l) apart.1

Step-Paired : (s : Server) {t : Server} → Step s t → Paired s → Paired t
Step-Paired s (goes_on before after e f) p =
    blocked_in-change before after testing accepting s.threads refl f ∙ p
Step-Paired s (leaves before after e f) p =
    blocked_in-change before after testing ended s.threads refl f ∙ p
Step-Paired s (refused before after f) p =
    blocked_in-change before after accepting testing s.threads refl f ∙ p
Step-Paired s (take before after c rest e f) p =
    blocked_in-change before after accepting (serving c) s.threads refl f ∙ p
Step-Paired s (give_back before after c f) p =
    blocked_in-change before after (serving c) testing s.threads refl f ∙ p
Step-Paired s (guard_goes_on e f) p = p ∙ ap guard_on f
Step-Paired s (guard_leaves e f) p = p ∙ ap guard_on f
Step-Paired s (guard_checked f) p = p ∙ ap guard_on f
Step-Paired s (deadlocks before after c e f) p =
    first_blocked before after c s.threads (p ∙ ap guard_on e) f
Step-Paired s (stops e) p = p

blocked_in-idle_threads : (n : ℕ) → blocked_in (idle_threads n) ≡ []
unfolding idle_threads
blocked_in-idle_threads zero = refl
blocked_in-idle_threads (suc n) = blocked_in-idle_threads n

pub Reach-Paired : (n : ℕ) {s : Server} → Reach (server_create n) s → Paired s
unfolding server_create
Reach-Paired n here = blocked_in-idle_threads n
Reach-Paired n (next r st) = Step-Paired _ st (Reach-Paired n r)

-- No thread has a step left: each has returned, or is blocked.
abbrev pub AllOver : List Thread → Type 0
AllOver [] = Unit {0}
AllOver (ended ∷ threads) = AllOver threads
AllOver (blocked c ∷ threads) = AllOver threads
AllOver (accepting ∷ threads) = ⊥
AllOver (testing ∷ threads) = ⊥
AllOver (serving c ∷ threads) = ⊥

pub AllOver-served_by : (ts : List Thread) → AllOver ts → served_by ts ≡ blocked_in ts
AllOver-served_by [] h = refl
AllOver-served_by (ended ∷ ts) h = AllOver-served_by ts h
AllOver-served_by (blocked c ∷ ts) h = ap (λ l. c ∷ l) (AllOver-served_by ts h)
AllOver-served_by (accepting ∷ ts) h = absurd h
AllOver-served_by (testing ∷ ts) h = absurd h
AllOver-served_by (serving c ∷ ts) h = absurd h
