-- ===== src/Conf/Listed.antt =====
-- The loops over the children of a node, against the list of those children.
use mathlib.Core.List.{append_assoc, append-nil}
use xwp_server.Array.Push.{Holds, array_create-Holds, array_push-Holds}
use xwp_server.Array.{Array, array_create}
use xwp_server.Base.{
  map, replicate, ℕ, zero, suc, ◌-◌, ◌≤◌, ◌<◌, ◌≡◌, refl, sym, subst, ap, ◌∙◌, List, [], ◌∷◌, ◌++◌,
  none, some, length, drop, get_elem?, arith, Option-cases, inl, inr,
}
use xwp_server.CLib.{Bytes, codes}
use xwp_server.Conf.Exit.{Parsed, parsed, exits, ◌>>=◌, null_read, or_exit, root_needed}
use xwp_server.Conf.{
  push, width, each_child, first_cell, ModuleSo, Loaded, VhostConf, ConfFile, conf_parse,
  conf_parse_vhost, conf_parse_loadmodule,
}
use xwp_server.Xml.Queries.{named, xml_tree_find-named}
use xwp_server.Xml.{
  XmlNode, Children, end, sibling, children, xml_tree_find, xml_tree_find_first, xml_tree_str_first,
}

module _ {A : Type 0} (parse : XmlNode → Parsed A) where
  -- The results for all nodes, in order, or the first failure.
  abbrev pub collect : List XmlNode → Parsed (List A)
  collect [] = parsed []
  collect (node ∷ nodes) = parse node >>= λ x. collect nodes >>= λ xs. parsed (x ∷ xs)

-- An array that was filled behind these elements, or the same failure.
abbrev pub Stores : {A : Type 0} → List A → Parsed (Array A) → Parsed (List A) → Type 0
Stores xs (parsed a) (parsed ys) = Holds (xs ++ ys) a
Stores xs (exits e) (exits f) = e ≡ f
Stores xs _ _ = ⊥

drop-none {ℓ} : {A : Type ℓ} (xs : List A) (i : ℕ) → get_elem? xs i ≡ none → drop i xs ≡ []
drop-none [] zero e = refl
drop-none [] (suc i) e = refl
drop-none (x ∷ xs) zero e = cc
drop-none (x ∷ xs) (suc i) e = drop-none xs i e

pub drop-some {ℓ} :
    {A : Type ℓ} (xs : List A) (i : ℕ) (x : A)
    → get_elem? xs i ≡ some x
    → drop i xs ≡ x ∷ drop (suc i) xs
drop-some [] i x e = cc
drop-some (y ∷ xs) zero x e = ground arith
drop-some (y ∷ xs) (suc i) x e = drop-some xs i x e

pub length-named-le : (name : Bytes) (nodes : Children) → length (named name nodes) ≤ width nodes
unfolding named width
length-named-le name end = omega arith
length-named-le name (sibling node nodes) = ground (arith, length-named-le name nodes)

module _ {A : Type 0} (parse : XmlNode → Parsed A) where
  Stores-cons :
      (xs : List A) (x : A) (r : Parsed (Array A)) (s : Parsed (List A))
      → Stores (xs ++ x ∷ []) r s
      → Stores xs r (s >>= λ ys. parsed (x ∷ ys))
  Stores-cons xs x (parsed a) (parsed ys) h = subst (λ l. Holds l a) (append_assoc xs (x ∷ []) ys) h
  Stores-cons xs x (exits e) (exits f) h = h
  Stores-cons xs x (parsed a) (exits f) h = h
  Stores-cons xs x (exits e) (parsed ys) h = h

  -- One child, from the loop behind it.
  round-Stores :
      (r : Parsed A) (go_on : Array A → Parsed (Array A)) (rest : Parsed (List A)) (xs : List A)
      (a : Array A)
      → Holds xs a
      → 2 ≤ a.nalloc
      → ((x : A) (a' : Array A)
          → Holds (xs ++ x ∷ []) a'
          → 2 ≤ a'.nalloc
          → Stores (xs ++ x ∷ []) (go_on a') rest)
      → Stores xs (r >>= λ x. push a x >>= go_on) (r >>= λ x. rest >>= λ ys. parsed (x ∷ ys))
  unfolding push
  round-Stores (exits f) go_on rest xs a h two later = refl
  round-Stores (parsed x) go_on rest xs a h two later =
      let (a', pushed, holds, grown) = array_push-Holds xs a x h two in
      rw (pushed, push) (Stores-cons xs x (go_on a') rest (later x a' holds (omega arith)))

  each_child-Stores :
      (node : XmlNode) (name : Bytes) (fuel i : ℕ) (a : Array A) (xs : List A)
      → Holds xs a
      → 2 ≤ a.nalloc
      → length (drop i (named name (children node))) < fuel
      → Stores xs
          (each_child parse (some node) name fuel i a)
          (collect parse (drop i (named name (children node))))
  unfolding each_child
  each_child-Stores node name zero i a xs h two enough = absurd (omega arith)
  each_child-Stores node name (suc fuel) i a xs h two enough =
      let all = named name (children node) in
      elim (Option-cases (get_elem? all i)) [
        | inl e ↦
            rw (xml_tree_find-named node name i ∙ e, each_child, drop-none all i e)
              (subst (λ l. Holds l a) (sym (append-nil xs)) h)
        | inr (child, e) ↦
            let fewer : length (drop (suc i) all) < fuel =
              omega (arith, ap length (drop-some all i child e), enough) in
            rw (xml_tree_find-named node name i ∙ e, each_child, drop-some all i child e)
              (round-Stores (parse child) (λ a'. each_child parse (some node) name fuel (suc i) a')
                (collect parse (drop (suc i) all)) xs a h two
                (λ x a' holds more.
                  each_child-Stores node name fuel (suc i) a' (xs ++ x ∷ []) holds more fewer))
      ]

  -- The loops of `conf_parse` and `conf_parse_vhost`, on a new array of ten cells: they leave in it what
  -- `parse` gives for each child with the name, in order, or end with its first failure; every child
  -- is met, and no store is behind the array's block.
  pub each_child-collect :
      (node : XmlNode) (name : Bytes)
      → Stores []
          (each_child parse (some node) name (suc (width (children node))) 0 (array_create 10))
          (collect parse (named name (children node)))
  each_child-collect node name =
      each_child-Stores node name (suc (width (children node))) 0 (array_create 10) []
        (array_create-Holds 10) (unfold array_create in omega arith)
        (omega (arith, length-named-le name (children node)))

-- What is parsed is parsed from something.
parsed_from {ℓ} :
    {A B : Type ℓ} (first : Parsed A) (go_on : A → Parsed B) {y : B}
    → (first >>= go_on) ≡ parsed y
    → (x : A) × (first ≡ parsed x) × (go_on x ≡ parsed y)
parsed_from (exits reason) go_on e = cc
parsed_from (parsed x) go_on e = (x, refl, e)

parsed_inj {ℓ} : {A : Type ℓ} {a b : A} → parsed a ≡ parsed b → a ≡ b
parsed_inj e = cc

first_cell-cells :
    {A : Type 0} (xs : List A) (k : ℕ) (x : A)
    → first_cell (map some xs ++ replicate k none) ≡ parsed x
    → (ys : List A) × (xs ≡ x ∷ ys)
unfolding first_cell
first_cell-cells [] zero x e = cc
first_cell-cells [] (suc k) x e = cc
first_cell-cells (y ∷ xs) k x e = (xs, cc)

-- The virtual hosts of a configuration, of which the first is the default one.
abbrev pub IsListed : XmlNode → ConfFile → Type 0
IsListed node c =
    (rest : List VhostConf) × (collect (conf_parse_vhost c.module_sos c.root)
        (named (codes "vhost") (children node))
      ≡ parsed (c.default_vhost ∷ rest))
    × Holds (c.default_vhost ∷ rest) c.vhosts

stored :
    {A : Type 0} (r : Parsed (Array A)) (s : Parsed (List A)) (a : Array A)
    → Stores [] r s
    → r ≡ parsed a
    → (xs : List A) × (s ≡ parsed xs) × Holds xs a
stored (parsed b) (parsed xs) a h e = (xs, refl, subst (Holds xs) (same e) h)
  where
    same : parsed b ≡ parsed a → b ≡ a
    same e = cc
stored (exits e) s a h k = cc
stored (parsed b) (exits f) a h k = elim h [ ]

listed :
    (sos : Array ModuleSo) (root : Bytes) (node : XmlNode) (vhosts : Array VhostConf)
    (v : VhostConf)
    → each_child
        (conf_parse_vhost sos root)
        (some node)
        (codes "vhost")
        (suc (width (children node)))
        0
        (array_create 10)
      ≡ parsed vhosts
    → first_cell vhosts.elts ≡ parsed v
    → (rest : List VhostConf) × (collect
          (conf_parse_vhost sos root)
          (named (codes "vhost") (children node))
        ≡ parsed (v ∷ rest))
      × Holds (v ∷ rest) vhosts
listed sos root node vhosts v e f =
    let (xs, g, h) =
      stored _ _ vhosts (each_child-collect (conf_parse_vhost sos root) node (codes "vhost")) e in
    let (rest, k) =
      first_cell-cells xs (vhosts.nalloc - vhosts.count) v (sym (ap first_cell h.cells) ∙ f) in
    (rest, g ∙ ap parsed k, subst (λ l. Holds l vhosts) k h)

-- A configuration that is read has a virtual host for each element "vhost" of the file, in order, as
-- `conf_parse_vhost` reads them, and the first is the default one.
pub conf_parse-IsListed :
    (load : Bytes → Loaded) (node : XmlNode) (c : ConfFile)
    → conf_parse load (some node) ≡ parsed c
    → IsListed node c
unfolding conf_parse
conf_parse-IsListed load node c h =
    let (root, e1, h1) =
      parsed_from (or_exit (xml_tree_str_first (some node) (codes "root")) root_needed) _ h in
    let (sos, e2, h2) =
      parsed_from
        (conf_parse_loadmodule load (xml_tree_find_first (some node) (codes "load_module"))) _ h1 in
    let (vhosts, e3, h3) =
      parsed_from
        (each_child (conf_parse_vhost sos root) (some node) (codes "vhost")
          (suc (width (children node))) 0 (array_create 10))
        _ h2 in
    let (v, e4, h4) = parsed_from (first_cell vhosts.elts) _ h3 in
    subst (IsListed node) (parsed_inj h4) (listed sos root node vhosts v e3 e4)

-- Without a virtual host the program reads through NULL.
pub conf_parse_no_vhost :
    (load : Bytes → Loaded) (node : XmlNode) (root : Bytes) (sos : Array ModuleSo)
    → xml_tree_str_first (some node) (codes "root") ≡ some root
    → conf_parse_loadmodule load (xml_tree_find_first (some node) (codes "load_module"))
      ≡ parsed sos
    → named (codes "vhost") (children node) ≡ []
    → conf_parse load (some node) ≡ exits null_read
unfolding conf_parse
conf_parse_no_vhost load node root sos e f none_named =
    let no_child : xml_tree_find (some node) (codes "vhost") 0 ≡ none =
      xml_tree_find-named node (codes "vhost") 0 ∙ ap (λ l. get_elem? l 0) none_named in
    let empty : each_child (conf_parse_vhost sos root) (some node) (codes "vhost")
          (suc (width (children node))) 0 (array_create 10)
        ≡ parsed (array_create 10) =
      unfold each_child in rw (no_child, each_child) refl in
    rw (e, or_exit) (rw (f, ◌>>=◌) (rw (empty, ◌>>=◌) (unfold array_create first_cell in refl)))
