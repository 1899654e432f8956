-- ===== src/Parse/Url/Bounds.antt =====
-- Where `http_parse_url` writes, and where the fields of its result lie, for every text.
use xwp_server.Base.{
  ℕ, zero, suc, ◌+◌, ◌≤◌, ◌≡◌, refl, sym, subst, Bool, true, false, ◌||◌, Option, none, some, ◌==◌,
  if◌then◌else◌, arith, Bool-cases, Option-cases, inl, inr,
}
use xwp_server.CLib.{isspace, isdigit, is_character}
use xwp_server.Memory.{Mem}
use xwp_server.Parse.Url.{
  UrlState, stat_start, stat_schema, stat_schema_slash, stat_host, stat_port, stat_path,
  stat_query_string, stat_done, Marks, url_step, url_loop, is_done,
}

-- A part between `lo` and `hi` that has not begun, has begun, or has ended.
abbrev pub IsSpan : ℕ → ℕ → Option ℕ → Option ℕ → Type 0
IsSpan lo hi none none = Unit {0}
IsSpan lo hi none (some b) = ⊥
IsSpan lo hi (some a) none = (lo ≤ a) × (a ≤ hi)
IsSpan lo hi (some a) (some b) = (lo ≤ a) × (a ≤ b) × (b ≤ hi)

abbrev pub HasBegun : Option ℕ → Type 0
HasBegun none = ⊥
HasBegun (some a) = Unit {0}

-- What each state says of the parts.
abbrev pub Fits : UrlState → Marks → Type 0
Fits stat_start s =
    (s.schema_end ≡ none)
    × (s.host_end ≡ none)
    × (s.port_end ≡ none)
    × (s.path_end ≡ none)
    × (s.query_end ≡ none)
Fits stat_schema s =
    HasBegun s.schema_start
    × (s.schema_end ≡ none)
    × (s.host_end ≡ none)
    × (s.port_end ≡ none)
    × (s.path_end ≡ none)
    × (s.query_end ≡ none)
Fits stat_schema_slash s =
    (s.host_end ≡ none) × (s.port_end ≡ none) × (s.path_end ≡ none) × (s.query_end ≡ none)
Fits stat_host s =
    HasBegun s.host_start
    × (s.host_end ≡ none)
    × (s.port_end ≡ none)
    × (s.path_end ≡ none)
    × (s.query_end ≡ none)
Fits stat_port s =
    HasBegun s.port_start × (s.port_end ≡ none) × (s.path_end ≡ none) × (s.query_end ≡ none)
Fits stat_path s = HasBegun s.path_start × (s.path_end ≡ none) × (s.query_end ≡ none)
Fits stat_query_string s = HasBegun s.query_start × (s.query_end ≡ none)
Fits stat_done s = Unit {0}

-- All parts lie between `lo` and `hi`.
abbrev pub IsMarked : ℕ → ℕ → Marks → Type 0
IsMarked lo hi s =
    IsSpan lo hi s.schema_start s.schema_end
    × IsSpan lo hi s.host_start s.host_end
    × IsSpan lo hi s.port_start s.port_end
    × IsSpan lo hi s.path_start s.path_end
    × IsSpan lo hi s.query_start s.query_end

IsSpan-le : (lo hi hi' : ℕ) (a b : Option ℕ) → hi ≤ hi' → IsSpan lo hi a b → IsSpan lo hi' a b
IsSpan-le lo hi hi' none none l h = tt
IsSpan-le lo hi hi' none (some b) l h = h
IsSpan-le lo hi hi' (some a) none l h = omega arith
IsSpan-le lo hi hi' (some a) (some b) l h = omega arith

IsMarked-le : (lo hi hi' : ℕ) (s : Marks) → hi ≤ hi' → IsMarked lo hi s → IsMarked lo hi' s
IsMarked-le lo hi hi' s l m = (
  IsSpan-le lo hi hi' s.schema_start s.schema_end l m.0,
  IsSpan-le lo hi hi' s.host_start s.host_end l m.1,
  IsSpan-le lo hi hi' s.port_start s.port_end l m.2,
  IsSpan-le lo hi hi' s.path_start s.path_end l m.3,
  IsSpan-le lo hi hi' s.query_start s.query_end l m.4,
)

IsSpan-ended :
    (lo p : ℕ) (a b : Option ℕ)
    → b ≡ none
    → HasBegun a
    → IsSpan lo p a b
    → IsSpan lo (p + 1) a (some p)
IsSpan-ended lo p none b e k h = absurd k
IsSpan-ended lo p (some a) none e k h = omega arith
IsSpan-ended lo p (some a) (some b) e k h = cc

IsSpan-begun :
    (lo p q : ℕ) (b : Option ℕ) → b ≡ none → lo ≤ q → q ≤ p + 1 → IsSpan lo (p + 1) (some q) b
IsSpan-begun lo p q none e l k = (l, k)
IsSpan-begun lo p q (some b) e l k = cc

abbrev Keeps : ℕ → ℕ → Option Marks → Type 0
Keeps lo hi none = Unit {0}
Keeps lo hi (some s) = IsMarked lo hi s × Fits s.state s

Keeps-if :
    (lo hi : ℕ) (b : Bool) (x y : Option Marks)
    → Keeps lo hi x
    → Keeps lo hi y
    → Keeps lo hi (if b then x else y)
Keeps-if lo hi true x y h k = h
Keeps-if lo hi false x y h k = k

module _ (lo p c : ℕ) (l : lo ≤ p) (s : Marks) (m : IsMarked lo p s) where
  later : IsMarked lo (p + 1) s
  later = IsMarked-le lo p (p + 1) s (omega arith) m

  stays : (st : UrlState) → s.state ≡ st → Fits st s → Keeps lo (p + 1) (some s)
  stays st e f = (later, subst (λ t. Fits t s) (sym e) f)

  -- A test between two results.
  either :
      (b : Bool) (x y : Option Marks)
      → Keeps lo (p + 1) x
      → Keeps lo (p + 1) y
      → Keeps lo (p + 1) (if b then x else y)
  either b x y h k = Keeps-if lo (p + 1) b x y h k

  url_step-Keeps : (st : UrlState) → s.state ≡ st → Fits st s → Keeps lo (p + 1) (url_step st s p c)
  unfolding url_step
  url_step-Keeps stat_start e f = either (isspace c) _ _ (stays stat_start e f) (
      either (is_character c) _ _
        (
          (
            IsSpan-begun lo p p s.schema_end f.0 (omega arith) (omega arith),
            later.1,
            later.2,
            later.3,
            later.4,
          ),
          (tt, f.0, f.1, f.2, f.3, f.4),
        )
        (either (c == b'/') _ _
          (
            (
              later.0,
              later.1,
              later.2,
              IsSpan-begun lo p p s.path_end f.3 (omega arith) (omega arith),
              later.4,
            ),
            (tt, f.3, f.4),
          )
          tt))
  url_step-Keeps stat_schema e f = either (is_character c) _ _ (stays stat_schema e f) (
      either (c == b':') _ _
        (
          (
            IsSpan-ended lo p s.schema_start s.schema_end f.1 f.0 m.0,
            later.1,
            later.2,
            later.3,
            later.4,
          ),
          (f.2, f.3, f.4, f.5),
        )
        tt)
  url_step-Keeps stat_schema_slash e f = either (c == b'/') _ _ (stays stat_schema_slash e f) (
      either (is_character c) _ _
        (
          (
            later.0,
            IsSpan-begun lo p p s.host_end f.0 (omega arith) (omega arith),
            later.2,
            later.3,
            later.4,
          ),
          (tt, f.0, f.1, f.2, f.3),
        )
        tt)
  url_step-Keeps stat_host e f = either (is_character c) _ _ (stays stat_host e f) (
      either (isdigit c || c == b'.' || c == b'-') _ _ (stays stat_host e f) (
        either (c == b':') _ _
          (
            (
              later.0,
              IsSpan-ended lo p s.host_start s.host_end f.1 f.0 m.1,
              IsSpan-begun lo p (p + 1) s.port_end f.2 (omega arith) (omega arith),
              later.3,
              later.4,
            ),
            (tt, f.2, f.3, f.4),
          )
          (either (c == b'/') _ _
            (
              (
                later.0,
                IsSpan-ended lo p s.host_start s.host_end f.1 f.0 m.1,
                later.2,
                IsSpan-begun lo p p s.path_end f.3 (omega arith) (omega arith),
                later.4,
              ),
              (tt, f.3, f.4),
            )
            tt)))
  url_step-Keeps stat_port e f = either (isdigit c) _ _ (stays stat_port e f) (
      either (c == b'/') _ _
        (
          (
            later.0,
            later.1,
            IsSpan-ended lo p s.port_start s.port_end f.1 f.0 m.2,
            IsSpan-begun lo p p s.path_end f.2 (omega arith) (omega arith),
            later.4,
          ),
          (tt, f.2, f.3),
        )
        (either (isspace c) _ _
          (
            (
              later.0,
              later.1,
              IsSpan-ended lo p s.port_start s.port_end f.1 f.0 m.2,
              later.3,
              later.4,
            ),
            tt,
          )
          tt))
  url_step-Keeps stat_path e f =
      either (c == b'?') _ _
        (
          (
            later.0,
            later.1,
            later.2,
            IsSpan-ended lo p s.path_start s.path_end f.1 f.0 m.3,
            IsSpan-begun lo p (p + 1) s.query_end f.2 (omega arith) (omega arith),
          ),
          (tt, f.2),
        )
        (either (c == b'#') _ _
          (
            (
              later.0,
              later.1,
              later.2,
              IsSpan-ended lo p s.path_start s.path_end f.1 f.0 m.3,
              later.4,
            ),
            tt,
          )
          (either (isspace c) _ _
            (
              (
                later.0,
                later.1,
                later.2,
                IsSpan-ended lo p s.path_start s.path_end f.1 f.0 m.3,
                later.4,
              ),
              tt,
            )
            (stays stat_path e f)))
  url_step-Keeps stat_query_string e f =
      either (c == b'#' || isspace c) _ _
        (
          (
            later.0,
            later.1,
            later.2,
            later.3,
            IsSpan-ended lo p s.query_start s.query_end f.1 f.0 m.4,
          ),
          tt,
        )
        (stays stat_query_string e f)
  url_step-Keeps stat_done e f = tt

-- Where the loop ends, its parts lie before the end of the text.
abbrev pub Ends : ℕ → ℕ → Option Marks → Type 0
Ends lo hi none = Unit {0}
Ends lo hi (some s) = IsMarked lo hi s

pub url_loop-Ends :
    (m : Mem) (lo p n : ℕ) (s : Marks)
    → lo ≤ p
    → IsMarked lo p s
    → Fits s.state s
    → Ends lo (p + n) (url_loop m s p n)
unfolding url_loop
url_loop-Ends m lo p zero s l k f = IsMarked-le lo p (p + zero) s (omega arith) k
url_loop-Ends m lo p (suc n) s l k f = elim (Bool-cases (m p == 0)) [
  | inl nul ↦ rw nul (IsMarked-le lo p (p + suc n) s (omega arith) k)
  | inr byte ↦ elim (Option-cases (url_step s.state s p (m p))) [
    | inl e ↦ rw (byte, e) tt
    | inr (t, e) ↦
        let kept : Keeps lo (p + 1) (some t) =
          subst (Keeps lo (p + 1)) e (url_step-Keeps lo p (m p) l s k s.state refl f) in
        elim (Bool-cases (is_done t.state)) [
          | inl over ↦
              rw (byte, e, url_loop, over)
                (IsMarked-le lo (p + 1) (p + suc n) t (omega arith) kept.0)
          | inr going ↦
              let sum : p + suc n ≡ p + 1 + n = omega arith in
              rw (byte, e, url_loop, going, sum)
                (url_loop-Ends m lo (p + 1) n t (omega arith) kept.0 kept.1)
        ]
  ]
]
