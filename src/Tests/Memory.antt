-- ===== src/Tests/Memory.antt =====
-- Arrays, pools, connections and buffers, on concrete histories.
use xwp_server.Array.Push.{Holds, array_create-Holds, array_push-Holds}
use xwp_server.Array.{Array, array_create, array_push}
use xwp_server.Base.{◌≡◌, ◌≤◌, refl, ℕ, List, [], ◌∷◌, ◌++◌, none, some, arith}
use xwp_server.Pool.Destroy.{pool_destroy-run_calls, undone, ends_cleanup, ends_block}
use xwp_server.Pool.{allocates, adds_cleanup, pool_create, pool_destroy, run_calls, free_pool, Call}
use xwp_server.Request.{Buf}

array_push-Holds_example :
    (a' : Array ℕ) × (array_push (array_create 2) 7 ≡ some a') × Holds (7 ∷ []) a' × (2 ≤ a'.nalloc)
unfolding array_create
array_push-Holds_example =
    array_push-Holds [] (array_create 2) 7 (array_create-Holds 2) (omega arith)

abbrev full_one : Array ℕ
full_one = record { elts = some 7 ∷ []; count = 1; nalloc = 1 }

full_one-Holds : Holds (7 ∷ []) full_one
full_one-Holds = record { counted = refl; room = omega arith; cells = refl }

abbrev calls : List Call
calls =
    allocates 10 (some 64)
    ∷ adds_cleanup 1 (some 96)
    ∷ allocates 20 none
    ∷ adds_cleanup 2 (some 128)
    ∷ []

pool_destroy-run_calls_example :
    pool_destroy (run_calls pool_create calls)
    ≡ undone ends_cleanup calls ++ undone ends_block calls ++ free_pool ∷ []
pool_destroy-run_calls_example = pool_destroy-run_calls calls

abbrev full_buf : Buf
full_buf = record { start = 0; end = 8; pos = 4; last = 8 }
