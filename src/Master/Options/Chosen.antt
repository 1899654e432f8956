-- ===== src/Master/Options/Chosen.antt =====
-- The names of the files that the options choose.
use xwp_server.Base.{
  ℕ, zero, suc, ◌<◌, ◌≤◌, ◌≡◌, ◌≢◌, refl, ap, ◌∙◌, sym, false, List, [], ◌∷◌, ◌++◌, Option, none,
  some, ◌==◌, take, take_all, replicate, length-replicate, length, arith,
}
use xwp_server.CLib.{Bytes}
use xwp_server.Memory.Pieces.{IsFreeOf}
use xwp_server.Master.Options.{
  Opt, opt_c, opt_l, opt_other, max_conf_len, strncpy, Files, option_loop, or_default, conf_files,
  string_in,
}

-- A text that fits into a buffer with its NUL.
abbrev pub IsName : Bytes → Type 0
IsName text = IsFreeOf 0 text × (length text < 512)

abbrev pub AreNames : List Opt → Type 0
AreNames [] = Unit {0}
AreNames (opt_c text ∷ opts) = IsName text × AreNames opts
AreNames (opt_l text ∷ opts) = IsName text × AreNames opts
AreNames (opt_other ∷ opts) = ⊥

-- The text of the last option of its kind.
abbrev pub last_c : Bytes → List Opt → Bytes
last_c text [] = text
last_c text (opt_c next ∷ opts) = last_c next opts
last_c text (opt_l next ∷ opts) = last_c text opts
last_c text (opt_other ∷ opts) = last_c text opts

abbrev pub last_l : Bytes → List Opt → Bytes
last_l text [] = text
last_l text (opt_c next ∷ opts) = last_l text opts
last_l text (opt_l next ∷ opts) = last_l next opts
last_l text (opt_other ∷ opts) = last_l text opts

abbrev pub nonempty_or : Bytes → Bytes → Bytes
nonempty_or path [] = path
nonempty_or path (c ∷ text) = c ∷ text

last_c-IsName :
    (text : Bytes) (opts : List Opt) → IsName text → AreNames opts → IsName (last_c text opts)
last_c-IsName text [] h k = h
last_c-IsName text (opt_c next ∷ opts) h k = last_c-IsName next opts k.0 k.1
last_c-IsName text (opt_l next ∷ opts) h k = last_c-IsName text opts h k.1
last_c-IsName text (opt_other ∷ opts) h k = absurd k

last_l-IsName :
    (text : Bytes) (opts : List Opt) → IsName text → AreNames opts → IsName (last_l text opts)
last_l-IsName text [] h k = h
last_l-IsName text (opt_c next ∷ opts) h k = last_l-IsName text opts h k.1
last_l-IsName text (opt_l next ∷ opts) h k = last_l-IsName next opts k.0 k.1
last_l-IsName text (opt_other ∷ opts) h k = absurd k

option_loop-last :
    (opts : List Opt) (a b : Bytes)
    → AreNames opts
    → option_loop opts (record { xwp_conf = strncpy a; log_conf = strncpy b })
      ≡ some (record { xwp_conf = strncpy (last_c a opts); log_conf = strncpy (last_l b opts) })
unfolding option_loop
option_loop-last [] a b h = refl
option_loop-last (opt_c text ∷ opts) a b h = option_loop-last opts text b h.1
option_loop-last (opt_l text ∷ opts) a b h = option_loop-last opts a text h.1
option_loop-last (opt_other ∷ opts) a b h = absurd h

nonzero : (c : ℕ) → c ≢ 0 → (c == 0) ≡ false
nonzero c h = ground arith

padded :
    (text : Bytes) (n m : ℕ)
    → IsFreeOf 0 text
    → length text < n
    → n ≤ m
    → string_in (take n (text ++ replicate m 0)) ≡ some text
unfolding string_in
padded text zero m h l k = absurd (omega arith)
padded text (suc n) zero h l k = absurd (omega arith)
padded [] (suc n) (suc m) h l k = refl
padded (c ∷ text) (suc n) (suc m) h l k =
    rw (nonzero c h.0, padded text n (suc m) h.1 (omega arith) (omega arith)) refl

string_in-strncpy : (text : Bytes) → IsName text → string_in (strncpy text) ≡ some text
unfolding strncpy
string_in-strncpy text h = padded text 512 512 h.0 h.1 (omega arith)

unended :
    (text : Bytes) (n m : ℕ)
    → IsFreeOf 0 text
    → n ≤ length text
    → string_in (take n (text ++ replicate m 0)) ≡ none
unfolding string_in
unended text zero m h l = refl
unended [] (suc n) m h l = absurd (omega arith)
unended (c ∷ text) (suc n) m h l = rw (nonzero c h.0, unended text n m h.1 (omega arith)) refl

-- A text of 512 bytes or more leaves no NUL in the buffer, so that reading it runs past its end.
pub string_in-strncpy-none :
    (text : Bytes) → IsFreeOf 0 text → 512 ≤ length text → string_in (strncpy text) ≡ none
unfolding strncpy
string_in-strncpy-none text h l = unended text 512 512 h l

zeros : replicate max_conf_len 0 ≡ strncpy []
unfolding strncpy
zeros = sym (take_all (replicate 512 0) 512 (omega (arith, length-replicate {A = ℕ} 512 0)))

default_taken : (path : Bytes) → or_default path (strncpy []) ≡ strncpy path
unfolding or_default strncpy
default_taken path = refl

name_taken :
    (path : Bytes) (c : ℕ) (text : Bytes)
    → c ≢ 0
    → or_default path (strncpy (c ∷ text)) ≡ strncpy (c ∷ text)
unfolding or_default strncpy
name_taken path c text h = rw (nonzero c h) refl

string_in-or_default :
    (path text : Bytes)
    → IsName path
    → IsName text
    → string_in (or_default path (strncpy text)) ≡ some (nonempty_or path text)
string_in-or_default path [] h k = ap string_in (default_taken path) ∙ string_in-strncpy path h
string_in-or_default path (c ∷ text) h k =
    ap string_in (name_taken path c text k.0.0) ∙ string_in-strncpy (c ∷ text) k

abbrev pub Chosen : Bytes → Bytes → Option Files → Type 0
Chosen c l none = ⊥
Chosen c l (some files) = (string_in files.xwp_conf ≡ some c) × (string_in files.log_conf ≡ some l)

-- With options that are all known, whose texts and whose defaults hold no NUL and are shorter than
-- the buffers: the files are those of the last `-c` and of the last `-l`, or the default where there
-- is none or its text is empty.
pub conf_files-Chosen :
    (xwp_path log_path : Bytes) (opts : List Opt)
    → IsName xwp_path
    → IsName log_path
    → AreNames opts
    → Chosen
        (nonempty_or xwp_path (last_c [] opts))
        (nonempty_or log_path (last_l [] opts))
        (conf_files xwp_path log_path opts)
unfolding conf_files
conf_files-Chosen xwp_path log_path opts h k o =
    let none_yet : IsName [] = (tt, omega arith) in
    let start : Bytes → Option Files =
      λ zeros. option_loop opts (record { xwp_conf = zeros; log_conf = zeros }) in
    rw (ap start zeros ∙ option_loop-last opts [] [] o, conf_files)
      (
        string_in-or_default xwp_path (last_c [] opts) h (last_c-IsName [] opts none_yet o),
        string_in-or_default log_path (last_l [] opts) k (last_l-IsName [] opts none_yet o),
      )
