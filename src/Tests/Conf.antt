-- ===== src/Tests/Conf.antt =====
-- A configuration of one virtual host with one location, and the theorems at it.
use xwp_server.Array.{Array, array_create, array_push}
use xwp_server.Base.{replicate, ◌*◌, pos, ℕ, suc, ◌≡◌, refl, [], ◌∷◌, none, some, arith}
use xwp_server.CLib.{Bytes, codes, strcmp_eq}
use xwp_server.Conf.Destroy.{conf_destroy, conf_destroy_never_ends}
use xwp_server.Conf.Exit.{Parsed, parsed}
use xwp_server.Conf.Listed.{Stores, collect, each_child-collect, IsListed, conf_parse-IsListed}
use xwp_server.Conf.{
  VhostConf, Loaded, loaded, ModuleSo, ConfFile, width, each_child, conf_parse,
  conf_parse_loadmodule,
}
use xwp_server.Xml.Queries.{named}
use xwp_server.Xml.{
  XmlNode, text, comment, normal, Children, end, sibling, children, xml_tree_find,
  xml_tree_str_first, xml_tree_find_first, is_named, xml_tree_str, xml_tree_int, xml_tree_int_first,
}

-- <name>s</name>
abbrev leaf : Bytes → Bytes → XmlNode
leaf name s = normal name (sibling (text s) end)

abbrev handler : XmlNode
handler = normal (codes "handler") (sibling (leaf (codes "name") (codes "default")) end)

abbrev location : XmlNode
location =
    normal (codes "location")
      (sibling (leaf (codes "pattern") (codes "/")) (sibling comment (sibling handler end)))

abbrev vhost : XmlNode
vhost = normal (codes "vhost") (sibling (leaf (codes "name") (codes "a")) (sibling location end))

abbrev modules : XmlNode
modules = normal (codes "load_module") (sibling (leaf (codes "module") (codes "m.so")) end)

abbrev rest : Children
rest = sibling (leaf (codes "root") (codes "/w")) (sibling modules end)

abbrev site : XmlNode
site = normal (codes "conf") (sibling vhost rest)

abbrev bare : XmlNode
bare = normal (codes "conf") rest

abbrev load : Bytes → Loaded
load file = loaded (record { name = codes "default"; create = λ n. some 7 })

abbrev size_of : XmlNode → Parsed ℕ
size_of n = parsed (width (children n))

each_child-collect_example :
    Stores []
      (each_child size_of
        (some site)
        (codes "vhost")
        (suc (width (children site)))
        0
        (array_create 10))
      (collect size_of (named (codes "vhost") (children site)))
each_child-collect_example = each_child-collect size_of site (codes "vhost")

abbrev module_so : ModuleSo
module_so = record { name = codes "default"; create = λ n. some 7 }

-- An array with one element of the ten that there is room for.
abbrev one_of {ℓ} : {A : Type ℓ} → A → Array A
one_of x = record { elts = some x ∷ replicate 9 none; count = 1; nalloc = 10 }

site_root : xml_tree_str_first (some bare) (codes "root") ≡ some (codes "/w")
unfolding xml_tree_find is_named strcmp_eq xml_tree_str xml_tree_str_first
site_root = refl

site_modules :
    conf_parse_loadmodule load (xml_tree_find_first (some bare) (codes "load_module"))
    ≡ parsed (one_of module_so)
unfolding conf_parse_loadmodule xml_tree_find_first xml_tree_find is_named strcmp_eq xml_tree_str
    array_push array_create
site_modules = refl

no_vhosts : named (codes "vhost") (children bare) ≡ []
unfolding named is_named strcmp_eq
no_vhosts = refl

abbrev vhost_conf : VhostConf
vhost_conf = record {
  name = codes "a";
  root = codes "/w";
  locs = one_of (record {
    root = codes "/w";
    pattern_str = codes "/";
    handler_name = codes "default";
    handler = 7;
  });
}

abbrev site_conf : ConfFile
site_conf = record {
  worker_num = pos 1;
  max_threads = pos 50;
  request_pool_size = pos (1024 * 8);
  connection_timeout = pos 30;
  client_header_size = pos (1024 * 2);
  large_client_header_size = pos (1024 * 4);
  content_body_buf_size = pos (4 * 1024);
  max_content_len = pos (1024 * 1024);
  port = pos 80;
  ip = none;
  root = codes "/w";
  default_page = codes "index.html";
  module_sos = one_of module_so;
  vhosts = one_of vhost_conf;
  default_vhost = vhost_conf;
}

conf_parse-site : conf_parse load (some site) ≡ parsed site_conf
unfolding conf_parse xml_tree_find_first xml_tree_int_first xml_tree_int array_push array_create
    xml_tree_find is_named strcmp_eq xml_tree_str xml_tree_str_first
conf_parse-site = refl

conf_parse-IsListed_example : IsListed site site_conf
conf_parse-IsListed_example = conf_parse-IsListed load site site_conf conf_parse-site

-- Three virtual hosts, each with one location.
conf_destroy_never_ends_example : conf_destroy (1 ∷ 1 ∷ 1 ∷ []) 100 ≡ none
conf_destroy_never_ends_example =
    conf_destroy_never_ends 1 (1 ∷ 1 ∷ []) 100 (omega arith, (omega arith, (omega arith, tt)))
