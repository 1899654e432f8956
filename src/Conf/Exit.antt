-- ===== src/Conf/Exit.antt =====
-- How reading the configuration ends.
use xwp_server.Base.{Option, none, some}

-- The reasons for `exit(-1)`, a read through a NULL pointer, and a store behind an array's block.
pub data Failure : Type 0 where
  tree_missing root_needed module_not_opened module_no_info : Failure
  vhost_name_needed pattern_needed handler_needed handler_name_needed handler_not_found : Failure
  null_read overrun : Failure

pub data Parsed {ℓ} (A : Type ℓ) : Type ℓ where
  exits : Failure → Parsed A
  parsed : A → Parsed A

-- The statements behind one that may end the program.
infixl 5 ◌>>=◌
abbrev pub ◌>>=◌ {ℓ} : {A B : Type ℓ} → Parsed A → (A → Parsed B) → Parsed B
exits reason >>= go_on = exits reason
parsed x >>= go_on = go_on x

-- `if(p == NULL) exit(-1)`
abbrev pub or_exit {ℓ} : {A : Type ℓ} → Option A → Failure → Parsed A
or_exit none e = exits e
or_exit (some a) e = parsed a
