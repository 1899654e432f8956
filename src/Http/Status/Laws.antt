-- ===== src/Http/Status/Laws.antt =====
-- What `http_status_line` finds.
use xwp_server.Base.{
  ℕ, zero, suc, ◌+◌, ◌<◌, ◌≤◌, ◌≡◌, ◌≢◌, ◌↔◌, refl, ◌∙◌, Bool, true, ◌&&◌, List, [], ◌∷◌, some,
  get_elem?, leb, arith,
}
use xwp_server.Http.Table.{out_of_range, scan}
use xwp_server.Http.Table.Search.{IsSorted, search-scan}
use xwp_server.Http.Status.{http_status_infos, http_status_line}

module _ {A : Type 0} where
  -- The keys grow from `lo` on.
  unfoldable pub ascending : ℕ → List (ℕ × A) → Bool
  ascending lo [] = true
  ascending lo ((k, v) ∷ rest) = leb lo k && ascending (k + 1) rest

  ascending-le :
      (lo i : ℕ) (table : List (ℕ × A)) (e : ℕ × A)
      → ascending lo table ≡ true
      → get_elem? table i ≡ some e
      → lo ≤ e.0
  unfolding ascending
  ascending-le lo i [] e h g = cc
  ascending-le lo zero ((k, v) ∷ rest) e h g = ground arith
  ascending-le lo (suc i) ((k, v) ∷ rest) e h g = ground (arith, ascending-le (k + 1) i rest e)

  pub ascending-IsSorted :
      (lo : ℕ) (table : List (ℕ × A)) → ascending lo table ≡ true → IsSorted table
  unfolding ascending
  ascending-IsSorted lo [] h i j a b l p q = cc
  ascending-IsSorted lo ((k, v) ∷ rest) h i zero a b l p q = absurd (omega arith)
  ascending-IsSorted lo ((k, v) ∷ rest) h zero (suc j) a b l p q =
      ground (arith, ascending-le (k + 1) j rest b)
  ascending-IsSorted lo ((k, v) ∷ rest) h (suc i) (suc j) a b l p q =
      ascending-IsSorted (k + 1) rest (ground arith) i j a b (omega arith) p q

  unfoldable pub keys_le : ℕ → List (ℕ × A) → Bool
  keys_le m [] = true
  keys_le m ((k, v) ∷ rest) = leb k m && keys_le m rest

  pub scan_above :
      (table : List (ℕ × A)) (m status : ℕ)
      → keys_le m table ≡ true
      → m < status
      → scan table status ≡ out_of_range
  unfolding keys_le scan
  scan_above [] m status h l = refl
  scan_above ((k, v) ∷ rest) m status h l = ground (arith, scan_above rest m status)

  pub scan_within :
      (table : List (ℕ × A)) (i status : ℕ) (e : ℕ × A)
      → get_elem? table i ≡ some e
      → status ≤ e.0
      → scan table status ≢ out_of_range
  unfolding scan
  scan_within [] i status e g l = absurd (cc)
  scan_within ((k, v) ∷ rest) zero status e g l = ground arith
  scan_within ((k, v) ∷ rest) (suc i) status e g l = ground (arith, scan_within rest i status e)

infos-IsSorted : IsSorted http_status_infos
unfolding ascending
infos-IsSorted = ascending-IsSorted 200 http_status_infos refl

-- For every status the binary search gives what reading the table from the front gives: the line of
-- the entry with that code, `missing` if a larger code comes first, and a read behind the table if
-- none does.
pub http_status_line-scan : (status : ℕ) → http_status_line status ≡ scan http_status_infos status
unfolding http_status_line
http_status_line-scan status = search-scan http_status_infos status infos-IsSorted

-- The search reads behind the end of the table for exactly the codes above 507.
pub http_status_line_overrun :
    (status : ℕ) → (http_status_line status ≡ out_of_range) ↔ (507 < status)
unfolding keys_le
http_status_line_overrun status = (
  λ e. overrun e,
  λ h. http_status_line-scan status ∙ scan_above http_status_infos 507 status refl h,
)
  where
    overrun : http_status_line status ≡ out_of_range → 507 < status
    overrun e =
        ground (arith, http_status_line-scan status, scan_within http_status_infos 30 status _ refl)
