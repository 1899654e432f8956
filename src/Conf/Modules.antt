-- ===== src/Conf/Modules.antt =====
-- The loop over the modules meets every one of them.
use xwp_server.Array.{Array}
use xwp_server.Base.{
  ℕ, zero, suc, ◌+◌, ◌<◌, ◌≡◌, refl, ap, ◌∙◌, length, drop, get_elem?, Option, none, some,
  Option-cases, inl, inr, arith,
}
use xwp_server.CLib.{Bytes, codes}
use xwp_server.Conf.Exit.{Parsed, parsed, exits, ◌>>=◌}
use xwp_server.Conf.Listed.{drop-some, length-named-le}
use xwp_server.Conf.{Loaded, ModuleSo, width, push, load_module, module_loop}
use xwp_server.Xml.Queries.{named, xml_tree_find-named}
use xwp_server.Xml.{XmlNode, children, xml_tree_str}

none-ne-some {ℓ} : {A : Type ℓ} {o : Option A} {x : A} → o ≡ none → o ≡ some x → ⊥
none-ne-some e f = cc

bind_eq {ℓ} :
    {A B : Type ℓ} (m : Parsed A) (f g : A → Parsed B)
    → ((x : A) → f x ≡ g x)
    → (m >>= f) ≡ (m >>= g)
bind_eq (parsed x) f g h = h x
bind_eq (exits e) f g h = refl

xml_tree_str-none :
    (node : XmlNode) (name : Bytes) (i : ℕ)
    → get_elem? (named name (children node)) i ≡ none
    → xml_tree_str (some node) name i ≡ none
unfolding xml_tree_str
xml_tree_str-none node name i e = rw (xml_tree_find-named node name i ∙ e, xml_tree_str) refl

module _ (load : Bytes → Loaded) (node : XmlNode) where
  module_loop_more :
      (fuel k i : ℕ) (a : Array ModuleSo)
      → length (drop i (named (codes "module") (children node))) < fuel
      → module_loop load (some node) (fuel + k) i a ≡ module_loop load (some node) fuel i a
  unfolding module_loop
  module_loop_more zero k i a h = absurd (omega arith)
  module_loop_more (suc fuel) k i a h =
      let all = named (codes "module") (children node) in
      let more : suc fuel + k ≡ suc (fuel + k) = omega arith in
      rw more (elim (Option-cases (xml_tree_str (some node) (codes "module") i)) [
        | inl e ↦ rw (e, module_loop) refl
        | inr (file, e) ↦ elim (Option-cases (get_elem? all i)) [
          | inl f ↦ absurd (none-ne-some (xml_tree_str-none node (codes "module") i f) e)
          | inr (child, f) ↦
              let fewer : length (drop (suc i) all) < fuel =
                omega (arith, ap length (drop-some all i child f), h) in
              rw (e, module_loop)
                (bind_eq (load_module load file) _ _
                  (λ so. bind_eq (push a so) _ _ (λ a'. module_loop_more fuel k (suc i) a' fewer)))
        ]
      ])

  -- More rounds than `conf_parse_loadmodule` takes make no difference.
  pub module_loop_enough :
      (k : ℕ) (a : Array ModuleSo)
      → module_loop load (some node) (suc (width (children node)) + k) 0 a
        ≡ module_loop load (some node) (suc (width (children node))) 0 a
  module_loop_enough k a =
      module_loop_more (suc (width (children node))) k 0 a
        (omega (arith, length-named-le (codes "module") (children node)))
