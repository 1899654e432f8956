-- ===== src/Server/Owned.antt =====
-- Every connection is in one place.
use xwp_server.Base.{
  ℕ, zero, suc, ◌+◌, ◌≤◌, ◌<◌, ◌≡◌, refl, ap, ◌∙◌, List, [], ◌∷◌, ◌++◌, arith, ◌==◌, if◌then◌else◌,
}
use xwp_server.Server.{
  Thread, testing, accepting, ended, serving, blocked, Server, linked, idle_threads, server_create,
  Step, goes_on, leaves, refused, take, give_back, guard_goes_on, guard_leaves, guard_checked,
  deadlocks, stops, Reach, here, next,
}
use xwp_server.Server.Free.{served_by}

-- How often `k` stands in a list.
abbrev pub count : ℕ → List ℕ → ℕ
count k [] = 0
count k (x ∷ xs) = (if x == k then 1 else 0) + count k xs

-- How often connection `k` stands in the free list or is served by a thread.
abbrev pub owners : ℕ → Server → ℕ
owners k s = count k s.free + count k (served_by s.threads)

count-append : (k : ℕ) (xs ys : List ℕ) → count k (xs ++ ys) ≡ count k xs + count k ys
count-append k [] ys = omega arith
count-append k (x ∷ xs) ys = omega (arith, count-append k xs ys)

served_by-append : (ts us : List Thread) → served_by (ts ++ us) ≡ served_by ts ++ served_by us
served_by-append [] us = refl
served_by-append (testing ∷ ts) us = served_by-append ts us
served_by-append (accepting ∷ ts) us = served_by-append ts us
served_by-append (ended ∷ ts) us = served_by-append ts us
served_by-append (serving c ∷ ts) us = ap (λ r. c ∷ r) (served_by-append ts us)
served_by-append (blocked c ∷ ts) us = ap (λ r. c ∷ r) (served_by-append ts us)

count-served_by :
    (k : ℕ) (ts us : List Thread)
    → count k (served_by (ts ++ us)) ≡ count k (served_by ts) + count k (served_by us)
count-served_by k ts us =
    ap (count k) (served_by-append ts us) ∙ count-append k (served_by ts) (served_by us)

-- One thread of the list changes.
served_by-change :
    (k : ℕ) (before after : List Thread) (x y : Thread) (ts : List Thread)
    → ts ≡ before ++ x ∷ after
    → count k (served_by (before ++ y ∷ after)) + count k (served_by (x ∷ []))
      ≡ count k (served_by ts) + count k (served_by (y ∷ []))
served_by-change k before after x y ts e = omega (
  arith,
  ap (λ ts. count k (served_by ts)) e,
  count-served_by k before (x ∷ after),
  count-served_by k before (y ∷ after),
  count-served_by k (x ∷ []) after,
  count-served_by k (y ∷ []) after,
)

Step-owners : (k : ℕ) (s : Server) {t : Server} → Step s t → owners k t ≡ owners k s
Step-owners k s (goes_on before after e f) =
    omega (arith, served_by-change k before after testing accepting s.threads f)
Step-owners k s (leaves before after e f) =
    omega (arith, served_by-change k before after testing ended s.threads f)
Step-owners k s (refused before after f) =
    omega (arith, served_by-change k before after accepting testing s.threads f)
Step-owners k s (take before after c rest e f) =
    omega (arith, ap (count k) e, served_by-change k before after accepting (serving c) s.threads f)
Step-owners k s (give_back before after c f) =
    omega (arith, served_by-change k before after (serving c) testing s.threads f)
Step-owners k s (guard_goes_on e f) = refl
Step-owners k s (guard_leaves e f) = refl
Step-owners k s (guard_checked f) = refl
Step-owners k s (deadlocks before after c e f) =
    omega (arith, served_by-change k before after (serving c) (blocked c) s.threads f)
Step-owners k s (stops e) = refl

Reach-owners : (k : ℕ) {s t : Server} → Reach s t → owners k t ≡ owners k s
Reach-owners k here = refl
Reach-owners k (next r st) = Step-owners k _ st ∙ Reach-owners k r

count-linked_below : (k from n : ℕ) → k < from → count k (linked from n) ≡ 0
unfolding linked
count-linked_below k from zero h = refl
count-linked_below k from (suc n) h = ground (arith, count-linked_below k (from + 1) n)

count-linked : (k from n : ℕ) → from ≤ k → k < from + n → count k (linked from n) ≡ 1
unfolding linked
count-linked k from zero lo hi = absurd (omega arith)
count-linked k from (suc n) lo hi =
    ground (arith, count-linked k (from + 1) n, count-linked_below k (from + 1) n)

served_by-idle_threads : (n : ℕ) → served_by (idle_threads n) ≡ []
unfolding idle_threads
served_by-idle_threads zero = refl
served_by-idle_threads (suc n) = served_by-idle_threads n

server_create-owners : (k n : ℕ) → k < n → owners k (server_create n) ≡ 1
unfolding server_create
server_create-owners k n h =
    omega (
      arith,
      count-linked k 0 n (omega arith) (omega arith),
      ap (count k) (served_by-idle_threads n),
    )

-- After any interleaving of the threads' steps each of the `max_threads` connections stands on the
-- free list or is served by a thread, once in all: no connection is lost, and none is served twice.
pub connection_owned_once :
    (n k : ℕ) (s : Server) → k < n → Reach (server_create n) s → owners k s ≡ 1
connection_owned_once n k s h r = Reach-owners k r ∙ server_create-owners k n h
