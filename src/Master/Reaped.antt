-- ===== src/Master/Reaped.antt =====
-- No worker that has ended is forgotten.
use xwp_server.Base.{
  ℕ, zero, suc, ◌+◌, ◌≤◌, ◌<◌, ◌≡◌, ◌≢◌, refl, sym, ap, ◌∙◌, subst, Bool, true, false, List, [],
  ◌∷◌, some, none, length, get_elem?, set, get_elem?-set_self, get_elem?-set_ne, arith, inl, inr,
  ◌⊎◌,
}
use xwp_server.Master.{
  Worker, alive, zombie, gone, Place, sleeping, visiting, Master, start, Step, ends, stops, wakes,
  passes, misses, forks, fails, round, leaves, Reach, started, then,
}

-- The round that is under way has still to come to the element `j`.
abbrev IsAhead : ℕ → Place → Type 0
IsAhead j (visiting i) = i ≤ j
IsAhead j _ = ⊥

abbrev IsSeen : Master → Type 0
IsSeen m =
    (j : ℕ) → get_elem? m.workers j ≡ some zombie → (m.child_exited ≡ true) ⊎ IsAhead j m.place

-- What a round that goes on behind the element `i` has still to come to.
still_ahead :
    (flag : Bool) (place : Place) (i j : ℕ)
    → place ≡ visiting i
    → i ≢ j
    → (flag ≡ true) ⊎ IsAhead j place
    → (flag ≡ true) ⊎ (i + 1 ≤ j)
still_ahead flag place i j p ne (inl e) = inl e
still_ahead flag place i j p ne (inr h) = inr (later (subst (IsAhead j) p h))
  where
    later : i ≤ j → i + 1 ≤ j
    later k = omega (arith, ne)

-- Elements behind the last one.
get_none-above :
    (workers : List Worker) (i j : ℕ)
    → get_elem? workers i ≡ none
    → i ≤ j
    → get_elem? workers j ≡ none
get_none-above [] i j e h = refl
get_none-above (w ∷ workers) zero j e h = cc
get_none-above (w ∷ workers) (suc i) zero e h = absurd (omega arith)
get_none-above (w ∷ workers) (suc i) (suc j) e h = get_none-above workers i j e (omega arith)

get_some-lt :
    (workers : List Worker) (i : ℕ) (w : Worker) → get_elem? workers i ≡ some w → i < length workers
get_some-lt [] i w e = cc
get_some-lt (x ∷ workers) zero w e = omega arith
get_some-lt (x ∷ workers) (suc i) w e = omega (arith, get_some-lt workers i w e)

-- An element that is a zombie is not the one that was overwritten by something else.
zombie_elsewhere :
    (workers : List Worker) (i j : ℕ) (w v : Worker)
    → get_elem? workers i ≡ some w
    → v ≢ zombie
    → get_elem? (set workers i v) j ≡ some zombie
    → i ≢ j
zombie_elsewhere workers i j w v e ne f same = ne (
    some_inj (
      sym (get_elem?-set_self workers i v (get_some-lt workers i w e))
      ∙ ap (get_elem? (set workers i v)) same
      ∙ f))
  where
    some_inj : some v ≡ some zombie → v ≡ zombie
    some_inj k = cc

step-IsSeen : {m n : Master} → IsSeen m → Step m n → IsSeen n
step-IsSeen s (ends i e) j f = inl refl
step-IsSeen s stops j f = s j f
step-IsSeen s (wakes e c) j f = inr (omega arith)
step-IsSeen {m} s (passes i p e) j f =
    still_ahead m.child_exited m.place i j p
      (λ same. clash (sym e ∙ ap (get_elem? m.workers) same ∙ f)) (s j f)
  where
    clash : some alive ≡ some zombie → ⊥
    clash k = cc
step-IsSeen {m} s (misses i p e) j f =
    still_ahead m.child_exited m.place i j p
      (λ same. clash (sym e ∙ ap (get_elem? m.workers) same ∙ f)) (s j f)
  where
    clash : some gone ≡ some zombie → ⊥
    clash k = cc
step-IsSeen {m} s (forks i p e g) j f =
    let ne = zombie_elsewhere m.workers i j zombie alive e (λ k. cc) f in
    still_ahead m.child_exited m.place i j p ne
      (s j (sym (get_elem?-set_ne m.workers alive ne) ∙ f))
step-IsSeen {m} s (fails i p e) j f =
    let ne = zombie_elsewhere m.workers i j zombie gone e (λ k. cc) f in
    still_ahead m.child_exited m.place i j p ne (s j (sym (get_elem?-set_ne m.workers gone ne) ∙ f))
step-IsSeen {m} s (round i p e) j f = finished (s j f)
  where
    finished : (m.child_exited ≡ true) ⊎ IsAhead j m.place → (m.child_exited ≡ true) ⊎ ⊥
    finished (inl k) = inl k
    finished (inr h) =
        absurd (none_there (sym (get_none-above m.workers i j e (subst (IsAhead j) p h)) ∙ f))
      where
        none_there : none ≡ some zombie → ⊥
        none_there k = cc
step-IsSeen {m} s (leaves p e) j f = finished (s j f)
  where
    finished : (m.child_exited ≡ true) ⊎ IsAhead j m.place → (m.child_exited ≡ true) ⊎ ⊥
    finished (inl k) = inl k
    finished (inr h) = absurd (subst (IsAhead j) p h)

Reach-IsSeen : {m : Master} → Reach m → IsSeen m
unfolding start
Reach-IsSeen (started true) zero f = cc
Reach-IsSeen (started true) (suc j) f = cc
Reach-IsSeen (started false) j f = cc
Reach-IsSeen (then h step) j f = step-IsSeen (Reach-IsSeen h) step j f

-- Whatever the order of the signals and the steps of the master: if it sleeps and `s_child_exited` is
-- not set, then no worker that has ended waits to be waited for. So a SIGCHLD that arrives during a
-- round is not lost.
pub no_worker_forgotten :
    (m : Master) (j : ℕ)
    → Reach m
    → m.place ≡ sleeping
    → m.child_exited ≡ false
    → get_elem? m.workers j ≢ some zombie
no_worker_forgotten m j h p c e = waiting (Reach-IsSeen h j e)
  where
    waiting : (m.child_exited ≡ true) ⊎ IsAhead j m.place → ⊥
    waiting (inl k) = cc
    waiting (inr k) = subst (IsAhead j) p k
