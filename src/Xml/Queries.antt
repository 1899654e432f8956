-- ===== src/Xml/Queries.antt =====
-- `xml_tree_find` against the list of all children with a name.
use xwp_server.Base.{
  ℕ, zero, suc, ◌+◌, ◌-◌, ◌≤◌, ◌≡◌, refl, ap, ◌∙◌, false, List, [], ◌∷◌, get_elem?, some, ◌==◌,
  if◌then◌else◌, arith, Bool-cases, inl, inr,
}
use xwp_server.CLib.{Bytes}
use xwp_server.Xml.{XmlNode, Children, end, sibling, children, is_named, find_loop, xml_tree_find}

-- The children with this name, in order.
unfoldable pub named : Bytes → Children → List XmlNode
named name end = []
named name (sibling node nodes) =
    let rest = named name nodes in if is_named name node then node ∷ rest else rest

find_loop-named :
    (name : Bytes) (index seen : ℕ) (nodes : Children)
    → seen ≤ index
    → find_loop name index seen nodes ≡ get_elem? (named name nodes) (index - seen)
unfolding find_loop named
find_loop-named name index seen end h = refl
find_loop-named name index seen (sibling node nodes) h = elim (Bool-cases (is_named name node)) [
  | inl here ↦ elim (Bool-cases (seen + 1 == index + 1)) [
    | inl last ↦
        let none_left : index - seen ≡ zero = ground arith in rw (here, last, none_left) refl
    | inr more ↦
        let still : seen + 1 ≤ index = ground arith in
        let later : index - seen ≡ suc (index - (seen + 1)) = omega arith in
        rw (here, more, later) (find_loop-named name index (seen + 1) nodes still)
  ]
  | inr other ↦
      let not_yet : (seen == index + 1) ≡ false = ground arith in
      rw (other, not_yet) (find_loop-named name index seen nodes h)
]

-- The query gives the child that stands at `index` among those with the name, and NULL if there are no
-- more than `index` of them.
pub xml_tree_find-named :
    (node : XmlNode) (name : Bytes) (index : ℕ)
    → xml_tree_find (some node) name index ≡ get_elem? (named name (children node)) index
unfolding xml_tree_find
xml_tree_find-named node name index =
    let all : index - 0 ≡ index = omega arith in
    find_loop-named name index 0 (children node) (omega arith)
    ∙ ap (get_elem? (named name (children node))) all
