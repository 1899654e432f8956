-- ===== src/Http/Headers/Laws.antt =====
-- What a lookup gives after a header was set.
use xwp_server.Base.{◌+◌, ◌≤◌, ◌≡◌, true, List, [], ◌∷◌, ◌++◌, some, length, arith}
use xwp_server.CLib.{Bytes, tolower, strncmp_eq, strncasecmp_eq}
use xwp_server.CLib.Compare.{agree-append, agree_self, agree-case, differ, agree-differ}
use xwp_server.Http.Headers.{Str, Header, http_header_set, http_header_str}

-- Every stored name that matches `name` without regard to case also matches it as it is written.
abbrev pub SameCase : Bytes → List Header → Type 0
SameCase name [] = Unit {0}
SameCase name (h ∷ headers) =
    (strncasecmp_eq name h.name (length name) ≡ true → strncmp_eq name h.name (length name) ≡ true)
    × SameCase name headers

-- A header that was set is found again with its value, provided that no stored name differs from
-- it in case alone.
pub http_header_str-set :
    (headers : List Header) (name : Bytes) (value : Str)
    → SameCase name headers
    → http_header_str (http_header_set headers name value) name ≡ some value
unfolding http_header_str http_header_set
http_header_str-set [] name value same = ground (arith, agree_self tolower name)
http_header_str-set (h ∷ headers) name value same =
    ground (arith, agree-case (length name) name h.name, http_header_str-set headers name value)

-- A lookup under a name that differs from the one set, before either name ends and without regard
-- to case, is not changed.
pub http_header_str-set_ne :
    (headers : List Header) (name other : Bytes) (value : Str)
    → differ other name ≡ true
    → http_header_str (http_header_set headers name value) other ≡ http_header_str headers other
unfolding http_header_str http_header_set
http_header_str-set_ne [] name other value d =
    ground (arith, agree-differ other name name, agree_self (λ c. c) name)
http_header_str-set_ne (h ∷ headers) name other value d =
    ground (arith, agree-differ other name h.name, http_header_str-set_ne headers name other value)

-- Setting a header overwrites the value of one whose name only begins with its name, and adds none.
pub http_header_set_prefix :
    (headers : List Header) (name more : Bytes) (old new : Str)
    → http_header_set (record { name = name ++ more; value = old } ∷ headers) name new
      ≡ record { name = name ++ more; value = new } ∷ headers
unfolding http_header_set
http_header_set_prefix headers name more old new = ground (arith, agree-append (λ c. c) name more)

-- `http_header_set` keeps every header in its place and adds at most one.
pub length-http_header_set :
    (headers : List Header) (name : Bytes) (value : Str)
    → (length headers ≤ length (http_header_set headers name value))
      × (length (http_header_set headers name value) ≤ length headers + 1)
unfolding http_header_set
length-http_header_set [] name value = omega arith
length-http_header_set (h ∷ headers) name value =
    ground (arith, length-http_header_set headers name value)
