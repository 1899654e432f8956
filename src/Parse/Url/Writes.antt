-- ===== src/Parse/Url/Writes.antt =====
-- What `http_parse_url` writes, for every text.
use xwp_server.Base.{
  ℕ, ◌+◌, ◌-◌, ◌≤◌, ◌<◌, ◌≡◌, refl, ◌∙◌, Option, none, some, arith, Option-cases, inl, inr, ◌⊎◌,
  subst,
}
use xwp_server.Memory.Walk.{write_self, write_ne}
use xwp_server.Memory.{Mem, write, slice, Slice}
use xwp_server.Parse.Url.Bounds.{IsSpan, IsMarked, Ends, url_loop-Ends}
use xwp_server.Parse.Url.{
  parse_done, Marks, url_loop, no_marks, Url, Outcome, end_or, set_schema, set_host, set_port,
  set_path, set_query_string, finish_url, http_parse_url,
}

-- A field that is set lies between `lo` and `hi`, with a NUL behind its last byte.
abbrev pub IsField : ℕ → ℕ → Mem → Option Slice → Type 0
IsField lo hi m none = Unit {0}
IsField lo hi m (some s) = (lo ≤ s.at) × (s.at + s.len ≤ hi) × (m (s.at + s.len) ≡ 0)

abbrev pub HasFields : ℕ → ℕ → Mem → Url → Type 0
HasFields lo hi m u =
    IsField lo hi m u.schema × IsField lo hi m u.path × IsField lo hi m u.query_string

-- The two memories differ between `lo` and `hi` alone.
abbrev pub SameOutside : ℕ → ℕ → Mem → Mem → Type 0
SameOutside lo hi m m' = (i : ℕ) → (i < lo) ⊎ (hi < i) → m' i ≡ m i

write_zero : (m : Mem) (a b : ℕ) → m b ≡ 0 → write m a 0 b ≡ 0
unfolding write
write_zero m a b h = ground arith

IsField-write :
    (lo hi a : ℕ) (m : Mem) (s : Option Slice) → IsField lo hi m s → IsField lo hi (write m a 0) s
IsField-write lo hi a m none h = tt
IsField-write lo hi a m (some s) h = (h.0, h.1, write_zero m a (s.at + s.len) h.2)

SameOutside-write :
    (lo hi a : ℕ) (m m' : Mem)
    → lo ≤ a
    → a ≤ hi
    → SameOutside lo hi m m'
    → SameOutside lo hi m (write m' a 0)
SameOutside-write lo hi a m m' l k h i o = write_ne m' a 0 i (λ e. apart e o) ∙ h i o
  where
    apart : i ≡ a → (i < lo) ⊎ (hi < i) → ⊥
    apart e (inl p) = absurd (omega arith)
    apart e (inr p) = absurd (omega arith)

module _ (lo hi : ℕ) (m : Mem) where
  abbrev pub Kept : Outcome → Type 0
  Kept (code, m', u) = SameOutside lo hi m m' × HasFields lo hi m' u

  abbrev Goes : (Mem → Url → Outcome) → Type 0
  Goes go_on =
      (m' : Mem) (u : Url) → SameOutside lo hi m m' → HasFields lo hi m' u → Kept (go_on m' u)

  -- A field that is cut out with a NUL at its end.
  cut-IsField :
      (a b : ℕ) (m' : Mem)
      → lo ≤ a
      → a ≤ b
      → b ≤ hi
      → IsField lo hi (write m' b 0) (some (record { at = a; len = b - a }))
  cut-IsField a b m' l k h = let e : a + (b - a) ≡ b = omega arith in rw e (l, h, write_self m' b 0)

  span_to_end :
      (a : ℕ) (b : Option ℕ)
      → IsSpan lo hi (some a) b
      → (lo ≤ a) × (a ≤ end_or b hi) × (end_or b hi ≤ hi)
  span_to_end a none h = omega arith
  span_to_end a (some b) h = h

  module _ (s : Marks) (k : IsMarked lo hi s) (m' : Mem) (u : Url) (o : SameOutside lo hi m m')
      (f : HasFields lo hi m' u) (go_on : Mem → Url → Outcome) (g : Goes go_on) where
    set_schema-Kept : Kept (set_schema s m' u go_on)
    unfolding set_schema
    set_schema-Kept = elim (Option-cases s.schema_start) [
      | inl e ↦ rw (e, set_schema) (g m' u o f)
      | inr (a, e) ↦ elim (Option-cases s.schema_end) [
        | inl d ↦ rw (e, set_schema) (rw d (o, f))
        | inr (b, d) ↦
            let span : (lo ≤ a) × (a ≤ b) × (b ≤ hi) = rw d at (rw e at k.0) in
            rw (e, set_schema)
              (rw d (
                g (write m' b 0) (record u { schema = some (record { at = a; len = b - a }) })
                  (SameOutside-write lo hi b m m' (omega arith) span.2 o)
                  (
                    cut-IsField a b m' span.0 span.1 span.2,
                    IsField-write lo hi b m' u.path f.1,
                    IsField-write lo hi b m' u.query_string f.2,
                  )))
      ]
    ]

    set_host-Kept : Kept (set_host s m' u go_on)
    unfolding set_host
    set_host-Kept = elim (Option-cases s.host_start) [
      | inl e ↦ rw (e, set_host) (g m' u o f)
      | inr (a, e) ↦ elim (Option-cases s.host_end) [
        | inl d ↦ rw (e, set_host) (rw d (o, f))
        | inr (b, d) ↦
            rw (e, set_host) (rw d (g m' (record u { host = some (slice m' a (b - a)) }) o f))
      ]
    ]

    set_port-Kept : Kept (set_port s m' u go_on)
    unfolding set_port
    set_port-Kept = elim (Option-cases s.port_start) [
      | inl e ↦ rw (e, set_port) (g m' (record u { port = 80 }) o f)
      | inr (a, e) ↦ elim (Option-cases s.port_end) [
        | inl d ↦ rw (e, set_port) (rw d (o, f))
        | inr (b, d) ↦ rw (e, set_port) (rw d (g m' _ o f))
      ]
    ]

    set_path-Kept : Kept (set_path s hi m' u go_on)
    unfolding set_path
    set_path-Kept = elim (Option-cases s.path_start) [
      | inl e ↦ rw (e, set_path) (g m' u o f)
      | inr (a, e) ↦
          let c = end_or s.path_end hi in
          let span = span_to_end a s.path_end (rw e at k.3) in
          rw (e, set_path)
            (g (write m' c 0) (record u { path = some (record { at = a; len = c - a }) })
              (SameOutside-write lo hi c m m' (omega arith) span.2 o)
              (
                IsField-write lo hi c m' u.schema f.0,
                cut-IsField a c m' span.0 span.1 span.2,
                IsField-write lo hi c m' u.query_string f.2,
              ))
    ]

    set_query_string-Kept : Kept (set_query_string s hi m' u go_on)
    unfolding set_query_string
    set_query_string-Kept = elim (Option-cases s.query_start) [
      | inl e ↦ rw (e, set_query_string) (g m' u o f)
      | inr (a, e) ↦
          let c = end_or s.query_end hi in
          let span = span_to_end a s.query_end (rw e at k.4) in
          rw (e, set_query_string)
            (g (write m' c 0) (record u { query_string = some (record { at = a; len = c - a }) })
              (SameOutside-write lo hi c m m' (omega arith) span.2 o)
              (
                IsField-write lo hi c m' u.schema f.0,
                IsField-write lo hi c m' u.path f.1,
                cut-IsField a c m' span.0 span.1 span.2,
              ))
    ]

  finish_url-Kept :
      (s : Marks) (m' : Mem) (u : Url)
      → IsMarked lo hi s
      → SameOutside lo hi m m'
      → HasFields lo hi m' u
      → Kept (finish_url s hi m' u)
  unfolding finish_url
  finish_url-Kept s m1 u1 k o1 f1 =
      let query : Mem → Url → Outcome =
        λ m u. set_query_string s hi m u λ m u. (parse_done, m, u) in
      let path : Mem → Url → Outcome = λ m u. set_path s hi m u query in
      let port : Mem → Url → Outcome = λ m u. set_port s m u path in
      let host : Mem → Url → Outcome = λ m u. set_host s m u port in
      set_schema-Kept s k m1 u1 o1 f1 host λ m2 u2 o2 f2.
        set_host-Kept s k m2 u2 o2 f2 port λ m3 u3 o3 f3.
          set_port-Kept s k m3 u3 o3 f3 path λ m4 u4 o4 f4.
            set_path-Kept s k m4 u4 o4 f4 query λ m5 u5 o5 f5.
              set_query_string-Kept s k m5 u5 o5 f5 (λ m u. (parse_done, m, u))
                λ m6 u6 o6 f6. (o6, f6)

-- For every text, also one that is refused, and a URL whose schema, path and query string are not
-- set, or lie within the text with a NUL behind them: `http_parse_url` writes nowhere but between
-- the text's first byte and the one behind its last, and afterwards the schema, the path and the
-- query string that are set lie there, each with a NUL behind its last byte.
pub http_parse_url-Kept :
    (m : Mem) (u : Url) (text : Slice)
    → HasFields text.at (text.at + text.len) m u
    → Kept text.at (text.at + text.len) m (http_parse_url m u text)
unfolding http_parse_url
http_parse_url-Kept m u text f = elim (Option-cases (url_loop m no_marks text.at text.len)) [
  | inl e ↦ rw (e, http_parse_url) (λ i o. refl, f)
  | inr (s, e) ↦
      let marked : Ends text.at (text.at + text.len) (some s) =
        subst (Ends text.at (text.at + text.len)) e (
          url_loop-Ends m text.at text.at text.len no_marks (omega arith) (tt, tt, tt, tt, tt)
            (refl, refl, refl, refl, refl)) in
      rw (e, http_parse_url)
        (finish_url-Kept text.at (text.at + text.len) m s m _ marked (λ i o. refl) f)
]
