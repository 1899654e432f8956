-- ===== src/Parse/RequestLine/Methods.antt =====
-- Which methods are told apart.
use xwp_server.Base.{◌≡◌, true, ◌++◌, length, some}
use xwp_server.CLib.Compare.{agree-append}
use xwp_server.CLib.{Bytes, codes, agree, tolower}
use xwp_server.Parse.RequestLine.{method_of}
use xwp_server.Request.{get}

-- A method that is only the beginning of "GET" counts as GET: the comparison ends with the token.
pub method_of_prefix :
    (s more : Bytes) → s ++ more ≡ codes "GET" → method_of s (length s) ≡ some get
unfolding method_of
method_of_prefix s more e =
    let fits : agree tolower (length s) s (codes "GET") ≡ true =
      rw (← e) (agree-append tolower s more) in
    rw fits
