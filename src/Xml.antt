-- ===== src/Xml.antt =====
-- The queries that src/xml_tree.c adds to its XML library, `xml_tree_find` to `xml_tree_int_first`, on
-- the library's nodes of src/xml_tree.h. The chain of siblings below a node is a list.
pub mod Queries
use xwp_server.Base.{ℕ, ◌+◌, Bool, false, Option, none, some, ◌==◌, if◌then◌else◌, ℤ}
use xwp_server.CLib.{Bytes, strcmp_eq, atoi}

-- `XmlNode`: its type with what the queries read of it, and its children.
mutual
  pub data XmlNode : Type 0 where
    text : Bytes → XmlNode
    comment : XmlNode
    pi : XmlNode
    normal : Bytes → Children → XmlNode

  pub data Children : Type 0 where
    end : Children
    sibling : XmlNode → Children → Children

-- `node->children`: the library gives children to elements alone.
abbrev pub children : XmlNode → Children
children (normal name nodes) = nodes
children _ = end

-- `cur_node->type == XML_NODE_NORMAL && strcmp(cur_node->u.normal.name, name) == 0`
unfoldable pub is_named : Bytes → XmlNode → Bool
is_named name (normal n nodes) = strcmp_eq n name
is_named name _ = false

-- The loop over the siblings; `seen` is `i + 1`.
unfoldable pub find_loop : Bytes → ℕ → ℕ → Children → Option XmlNode
find_loop name index seen end = none
find_loop name index seen (sibling node nodes) =
    let seen' = if is_named name node then seen + 1 else seen in
    let rest = find_loop name index seen' nodes in if seen' == index + 1 then some node else rest

-- `none` is NULL, for the node too.
unfoldable pub xml_tree_find : Option XmlNode → Bytes → ℕ → Option XmlNode
unfolding find_loop
xml_tree_find none name index = none
xml_tree_find (some node) name index = find_loop name index 0 (children node)

unfoldable pub xml_tree_find_first : Option XmlNode → Bytes → Option XmlNode
xml_tree_find_first node name = xml_tree_find node name 0

-- The text of the first child.
unfoldable pub first_text : Children → Option Bytes
first_text (sibling (text s) nodes) = some s
first_text _ = none

unfoldable pub xml_tree_str : Option XmlNode → Bytes → ℕ → Option Bytes
unfolding first_text
xml_tree_str node name index = elim (xml_tree_find node name index) [
  | none ↦ none
  | some found ↦ first_text (children found)
]

unfoldable pub xml_tree_str_first : Option XmlNode → Bytes → Option Bytes
xml_tree_str_first node name = xml_tree_str node name 0

unfoldable pub xml_tree_int : Option XmlNode → Bytes → ℕ → ℤ → ℤ
xml_tree_int node name index default_val = elim (xml_tree_str node name index) [
  | none ↦ default_val
  | some s ↦ atoi s
]

unfoldable pub xml_tree_int_first : Option XmlNode → Bytes → ℤ → ℤ
xml_tree_int_first node name default_val = xml_tree_int node name 0 default_val
