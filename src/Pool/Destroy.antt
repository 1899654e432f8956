-- ===== src/Pool/Destroy.antt =====
-- What destroying a pool does, after any history.
use mathlib.Core.List.{append_assoc}
use xwp_server.Base.{
  ℕ, ◌≡◌, ◌≢◌, refl, sym, ◌∙◌, ap, append_nil, List, [], ◌∷◌, ◌++◌, none, some, ◌==◌, if◌then◌else◌,
  arith, Bool-cases, inl, inr,
}
use xwp_server.Pool.{
  Pool, pool_create, sizeof_pool_node, pool_alloc, pool_add_cleanup, Action, run_cleanup,
  free_cleanup, free_node, free_pool, run_cleanups, free_nodes, pool_destroy, Call, allocates,
  adds_cleanup, run_calls, apply_call,
}

-- What is owed for a call: its function is to be run and its node to be freed.
abbrev pub ends_cleanup : Call → List Action
ends_cleanup (adds_cleanup c (some a)) = run_cleanup c ∷ (free_cleanup a ∷ [])
ends_cleanup _ = []

-- Its block is to be freed.
abbrev pub ends_block : Call → List Action
ends_block (allocates size (some a)) = if size == 0 then [] else free_node a ∷ []
ends_block _ = []

-- What is owed for the calls of a history, one call after the other, from the last to the first.
abbrev pub undone : (Call → List Action) → List Call → List Action
undone owed [] = []
undone owed (c ∷ cs) = undone owed cs ++ owed c

apply_call-cleanups :
    (p : Pool) (c : Call)
    → run_cleanups (apply_call p c).cleanups ≡ ends_cleanup c ++ run_cleanups p.cleanups
unfolding pool_alloc pool_add_cleanup run_cleanups
apply_call-cleanups p (allocates size block) = ap run_cleanups same
  where
    same : (pool_alloc p size block).0.cleanups ≡ p.cleanups
    same = ground arith
apply_call-cleanups p (adds_cleanup c none) = refl
apply_call-cleanups p (adds_cleanup c (some a)) = refl

apply_call-nodes :
    (p : Pool) (c : Call) → free_nodes (apply_call p c).nodes ≡ ends_block c ++ free_nodes p.nodes
unfolding pool_alloc pool_add_cleanup free_nodes
apply_call-nodes p (allocates size none) = ap free_nodes same
  where
    same : (pool_alloc p size none).0.nodes ≡ p.nodes
    same = ground arith
apply_call-nodes p (allocates size (some a)) = elim (Bool-cases (size == 0)) [
  | inl none_asked ↦
      let same : (pool_alloc p size (some a)).0.nodes ≡ p.nodes = ground arith in
      rw none_asked (ap free_nodes same)
  | inr asked ↦
      let same : (pool_alloc p size (some a)).0.nodes ≡ a ∷ p.nodes = ground arith in
      rw asked (ap free_nodes same)
]
apply_call-nodes p (adds_cleanup c none) = refl
apply_call-nodes p (adds_cleanup c (some a)) = refl

run_calls-cleanups :
    (p : Pool) (cs : List Call)
    → run_cleanups (run_calls p cs).cleanups ≡ undone ends_cleanup cs ++ run_cleanups p.cleanups
unfolding run_calls
run_calls-cleanups p [] = refl
run_calls-cleanups p (c ∷ cs) =
    run_calls-cleanups (apply_call p c) cs
    ∙ ap (λ l. undone ends_cleanup cs ++ l) (apply_call-cleanups p c)
    ∙ sym (append_assoc (undone ends_cleanup cs) (ends_cleanup c) (run_cleanups p.cleanups))

run_calls-nodes :
    (p : Pool) (cs : List Call)
    → free_nodes (run_calls p cs).nodes ≡ undone ends_block cs ++ free_nodes p.nodes
unfolding run_calls
run_calls-nodes p [] = refl
run_calls-nodes p (c ∷ cs) =
    run_calls-nodes (apply_call p c) cs
    ∙ ap (λ l. undone ends_block cs ++ l) (apply_call-nodes p c)
    ∙ sym (append_assoc (undone ends_block cs) (ends_block c) (free_nodes p.nodes))

-- After any history of a pool, destroying it first undoes each call of `pool_add_cleanup` for which
-- `malloc` gave a node, from the last to the first, running its function and then freeing its node;
-- then it frees each block that `malloc` gave for a size above 0, from the last to the first; and
-- then the pool. It does nothing else.
pub pool_destroy-run_calls :
    (cs : List Call)
    → pool_destroy (run_calls pool_create cs)
      ≡ undone ends_cleanup cs ++ undone ends_block cs ++ free_pool ∷ []
unfolding pool_destroy pool_create run_cleanups free_nodes
pool_destroy-run_calls cs =
    let cleanups = run_calls-cleanups pool_create cs ∙ append_nil (undone ends_cleanup cs) in
    let blocks = run_calls-nodes pool_create cs ∙ append_nil (undone ends_block cs) in
    rw (cleanups, blocks) refl

-- Where `malloc` fails the pointer is not NULL, but the size of a pool node.
pub pool_alloc_failed :
    (p : Pool) (size : ℕ) → size ≢ 0 → pool_alloc p size none ≡ (p, sizeof_pool_node)
unfolding pool_alloc
pool_alloc_failed p size h = ground arith
