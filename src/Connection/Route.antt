-- ===== src/Connection/Route.antt =====
-- `connection_process_request` of src/connection.c: the virtual host and the location of a request.
-- `matches` is `regexec(...) == 0` of a location's compiled pattern.
pub mod First
use xwp_server.Base.{ℕ, Bool, List, [], ◌∷◌, Option, none, some, length, if◌then◌else◌}
use xwp_server.CLib.{Bytes, strncasecmp_eq}

-- `vhost_loc_conf_t`: its pattern, and its handler by a number.
pub record Loc : Type 0 where
  pub pattern : Bytes
  pub handler : ℕ

-- `vhost_conf_t`
pub record Vhost : Type 0 where
  pub name : Bytes
  pub locs : List Loc

-- The first element that passes the test of the loop.
unfoldable pub first {ℓ} : {A : Type ℓ} → (A → Bool) → List A → Option A
first test [] = none
first test (x ∷ xs) = if test x then some x else first test xs

-- `strncasecmp(host, vhost->name.data, vhost->name.len) == 0`
abbrev pub serves : Bytes → Vhost → Bool
serves host v = strncasecmp_eq host v.name (length v.name)

-- The host header's virtual host; the default one if there is no header, or none serves it.
unfoldable pub find_vhost : Vhost → List Vhost → Option Bytes → Vhost
unfolding first
find_vhost default vhosts none = default
find_vhost default vhosts (some host) = elim (first (serves host) vhosts) [
  | none ↦ default
  | some v ↦ v
]

module _ (matches : Bytes → Bytes → Bool) where
  unfoldable pub find_loc : Bytes → List Loc → Option Loc
  unfolding first
  find_loc path locs = first (λ l. matches l.pattern path) locs

  -- The location that handles the request; `none` is the answer 400.
  unfoldable pub route : Vhost → List Vhost → Option Bytes → Bytes → Option Loc
  unfolding find_vhost find_loc
  route default vhosts host path = find_loc path (find_vhost default vhosts host).locs
