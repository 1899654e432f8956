-- ===== src/Http/Table.antt =====
-- The binary search that `http_status_line` and `http_error_page` of src/http.c both write out.
pub mod Search
use xwp_server.Base.{
  ℕ, zero, suc, ◌+◌, ◌-◌, ◌/◌, List, [], ◌∷◌, Option, none, some, length, get_elem?, ltb, ◌==◌,
  if◌then◌else◌,
}

-- What a search ends with. The loop starts with `high` at the table's length, so it can read the
-- element behind the last one: `out_of_range`.
pub data Lookup {ℓ} (A : Type ℓ) : Type ℓ where
  found : A → Lookup A
  missing : Lookup A
  out_of_range : Lookup A

-- Which way the loop goes on from the element at `mid`.
pub data Probe {ℓ} (A : Type ℓ) : Type ℓ where
  fault : Probe A
  hit : A → Probe A
  right left : Probe A

module _ {ℓ} {A : Type ℓ} where
  unfoldable pub probe : ℕ → Option (ℕ × A) → Probe A
  probe status none = fault
  probe status (some (k, v)) = if k == status then hit v else if ltb k status then right else left

  -- `while(low <= high)`. `above` is `high + 1`, since the `int` can be -1; so the loop's test is
  -- `low < above`, and `mid` is `(low + (above - 1)) / 2`.
  unfoldable pub search_loop : List (ℕ × A) → ℕ → ℕ → ℕ → ℕ → Lookup A
  unfolding probe
  search_loop table status zero low above = missing
  search_loop table status (suc fuel) low above =
      let mid = (low + (above - 1)) / 2 in
      let next : Lookup A = elim (probe status (get_elem? table mid)) [
        | fault ↦ out_of_range
        | hit v ↦ found v
        | right ↦ search_loop table status fuel (mid + 1) above
        | left ↦ search_loop table status fuel low mid
      ] in
      if ltb low above then next else missing

  -- `low = 0; high = sizeof(table) / sizeof(entry)`. Each round makes `above - low` smaller, so
  -- one round more than that difference is enough.
  unfoldable pub search : List (ℕ × A) → ℕ → Lookup A
  unfolding search_loop
  search table status = search_loop table status (length table + 2) 0 (length table + 1)

  -- The search that reads the table from the front: it gives up at the first larger key, and runs
  -- off the end where there is none.
  unfoldable pub scan : List (ℕ × A) → ℕ → Lookup A
  scan [] status = out_of_range
  scan ((k, v) ∷ rest) status =
      if k == status then found v else if ltb status k then missing else scan rest status
