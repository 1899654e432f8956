-- ===== src/Pool.antt =====
-- src/pool.c: a pool remembers its allocations and its cleanup functions in two lists, the newest
-- first. `malloc` is an argument: the address it returns, or none.
pub mod Destroy
pub mod Strings
use xwp_server.Base.{
  ℕ, ◌+◌, List, [], ◌∷◌, ◌++◌, Option, none, some, ◌==◌, if◌then◌else◌, Bool, true, false,
}

-- `pool_cleanup_node_t` without its link: its address, and the function with its context, by a number.
pub record CleanupNode : Type 0 where
  pub at : ℕ
  pub cleanup : ℕ

-- The nodes of the blocks by their addresses, and those of the cleanup functions.
pub record Pool : Type 0 where
  pub nodes : List ℕ
  pub cleanups : List CleanupNode

unfoldable pub pool_create : Pool
pool_create = record { nodes = []; cleanups = [] }

-- `sizeof(pool_node_t)`: one pointer.
abbrev pub sizeof_pool_node : ℕ
sizeof_pool_node = 8

-- The pool and the pointer, 0 for NULL. The node is linked only if `malloc` succeeds, but its size is
-- added to the pointer either way.
unfoldable pub pool_alloc : Pool → ℕ → Option ℕ → Pool × ℕ
pool_alloc p size block = if size == 0 then (p, 0) else elim block [
  | none ↦ (p, 0 + sizeof_pool_node)
  | some a ↦ (record p { nodes = a ∷ p.nodes }, a + sizeof_pool_node)
]

-- The result 0 or 1.
unfoldable pub pool_add_cleanup : Pool → ℕ → Option ℕ → Pool × Bool
pool_add_cleanup p cleanup none = (p, false)
pool_add_cleanup p cleanup (some a) =
    (record p { cleanups = record { at = a; cleanup = cleanup } ∷ p.cleanups }, true)

-- What `pool_destroy` does, in order.
pub data Action : Type 0 where
  run_cleanup : ℕ → Action
  free_cleanup : ℕ → Action
  free_node : ℕ → Action
  free_pool : Action

-- The two loops. Each cleanup node is freed behind the call of its function.
unfoldable pub run_cleanups : List CleanupNode → List Action
run_cleanups [] = []
run_cleanups (c ∷ cs) = run_cleanup c.cleanup ∷ (free_cleanup c.at ∷ run_cleanups cs)

unfoldable pub free_nodes : List ℕ → List Action
free_nodes [] = []
free_nodes (n ∷ ns) = free_node n ∷ free_nodes ns

unfoldable pub pool_destroy : Pool → List Action
unfolding run_cleanups free_nodes
pool_destroy p = run_cleanups p.cleanups ++ free_nodes p.nodes ++ free_pool ∷ []

-- A history of a pool: each call with what `malloc` returns to it.
pub data Call : Type 0 where
  allocates : ℕ → Option ℕ → Call
  adds_cleanup : ℕ → Option ℕ → Call

abbrev pub apply_call : Pool → Call → Pool
apply_call p (allocates size block) = (pool_alloc p size block).0
apply_call p (adds_cleanup c block) = (pool_add_cleanup p c block).0

unfoldable pub run_calls : Pool → List Call → Pool
run_calls p [] = p
run_calls p (c ∷ cs) = run_calls (apply_call p c) cs
