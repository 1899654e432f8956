-- ===== src/Uwsgi/Module/Modifier.antt =====
-- The elements of the module's configuration that have no effect.
use xwp_server.Base.{◌≡◌, refl, some}
use xwp_server.CLib.{Bytes, codes, strcmp_eq}
use xwp_server.Uwsgi.Module.{module_uwsgi_conf_init}
use xwp_server.Xml.{
  normal, Children, sibling, is_named, xml_tree_find, xml_tree_find_first, xml_tree_str,
  xml_tree_int, xml_tree_int_first,
}

-- An element "modifier1" in front of the others makes no difference to what the module is configured
-- with.
pub modifier1_ignored :
    (name : Bytes) (texts nodes : Children)
    → module_uwsgi_conf_init (some (normal name (sibling (normal (codes "modifier1") texts) nodes)))
      ≡ module_uwsgi_conf_init (some (normal name nodes))
unfolding module_uwsgi_conf_init xml_tree_find_first xml_tree_int_first xml_tree_int xml_tree_find
    is_named strcmp_eq xml_tree_str
modifier1_ignored name texts nodes = refl
