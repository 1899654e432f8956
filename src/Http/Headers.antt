-- ===== src/Http/Headers.antt =====
-- `http_header_set`, `http_header_set2`, `http_header_str`, `http_header_int` and
-- `http_header_equal` of src/http.c, on the list of the array's elements in order.
pub mod Laws
use xwp_server.Base.{
  Bool, false, ℕ, List, [], ◌∷◌, Option, none, some, length, if◌then◌else◌, ℤ, negsuc,
}
use xwp_server.CLib.{Bytes, strncmp_eq, strncasecmp_eq, strcmp_eq, atoi}

-- `str_t`: `none` is a NULL `data`.
pub record Str : Type 0 where
  pub text : Option Bytes
  pub len : ℕ

-- `server_string`, and a string with its `strlen`
abbrev pub str : Bytes → Str
str s = record { text = some s; len = length s }

-- `str_t s = {0}`
abbrev pub no_str : Str
no_str = record { text = none; len = 0 }

-- `http_header_t`. Every name comes from a constant or from `get_token`, so it is not NULL and its
-- `len` is its length.
pub record Header : Type 0 where
  pub name : Bytes
  pub value : Str

-- `strncmp` with the length of the new name: the first element whose name begins with it is changed,
-- and where there is none a new element is pushed.
unfoldable pub http_header_set : List Header → Bytes → Str → List Header
http_header_set [] name value = record { name = name; value = value } ∷ []
http_header_set (h ∷ headers) name value =
    if strncmp_eq name h.name (length name)
    then record h { value = value } ∷ headers
    else h ∷ http_header_set headers name value

-- The same with `strcmp`, on NUL-terminated arguments.
unfoldable pub http_header_set2 : List Header → Bytes → Bytes → List Header
http_header_set2 [] name value = record { name = name; value = str value } ∷ []
http_header_set2 (h ∷ headers) name value =
    if strcmp_eq name h.name
    then record h { value = str value } ∷ headers
    else h ∷ http_header_set2 headers name value

unfoldable pub http_header_str : List Header → Bytes → Option Str
http_header_str [] name = none
http_header_str (h ∷ headers) name =
    if strncasecmp_eq name h.name (length name) then some h.value else http_header_str headers name

-- A call that returns, or one that reads through a NULL pointer.
pub data Access {ℓ} (A : Type ℓ) : Type ℓ where
  value : A → Access A
  null_read : Access A

unfoldable pub text_int : Option Bytes → Access ℤ
text_int none = null_read
text_int (some s) = value (atoi s)

-- -1 if there is no such header.
unfoldable pub http_header_int : List Header → Bytes → Access ℤ
unfolding text_int
http_header_int headers name = elim (http_header_str headers name) [
  | none ↦ value (negsuc 0)
  | some v ↦ text_int v.text
]

unfoldable pub text_equal : Option Bytes → Option Bytes → ℕ → Access Bool
text_equal (some s) (some t) n = value (strncasecmp_eq s t n)
text_equal _ _ _ = null_read

unfoldable pub http_header_equal : List Header → Bytes → Str → Access Bool
unfolding text_equal
http_header_equal headers name v = elim (http_header_str headers name) [
  | none ↦ value false
  | some w ↦ text_equal w.text v.text w.len
]
