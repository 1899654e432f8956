-- ===== src/Tests/Text.antt =====
-- A text as the memory that holds it, and tests that hold at a range of its addresses, by computing
-- them.
use xwp_server.Base.{
  ℕ, zero, suc, ◌+◌, ◌≤◌, ◌<◌, ◌≡◌, Bool, true, false, not, get_or, if◌then◌else◌, arith, inl, inr,
  none, [], negsuc, ◌⊎◌, ap, ◌∙◌,
}
use xwp_server.CLib.{Bytes}
use xwp_server.Memory.{Mem}
use xwp_server.Parse.Url.{Url}
use xwp_server.Request.{Buf, Request, stat_none, get, http_10}

-- The text from address 0 on, with NULs behind it.
abbrev pub holding : Bytes → Mem
holding text a = get_or text a 0

abbrev pub all_from : (ℕ → Bool) → ℕ → ℕ → Bool
all_from test p zero = true
all_from test p (suc n) = if test p then all_from test (p + 1) n else false

pub all_from-holds :
    (test : ℕ → Bool) (p n : ℕ)
    → all_from test p n ≡ true
    → (i : ℕ) → p ≤ i
    → i < p + n
    → test i ≡ true
all_from-holds test p zero e i l h = absurd (omega arith)
all_from-holds test p (suc n) e i l h = elim (cases l) [
  | inl same ↦ ap test same ∙ here
  | inr later ↦ all_from-holds test (p + 1) n (ground arith) i later (omega arith)
]
  where
    cases : p ≤ i → (i ≡ p) ⊎ (p + 1 ≤ i)
    cases k = omega arith

    here : test p ≡ true
    here = ground arith

-- The same for a test that fails.
pub none_from-holds :
    (test : ℕ → Bool) (p n : ℕ)
    → all_from (λ i. not (test i)) p n ≡ true
    → (i : ℕ) → p ≤ i
    → i < p + n
    → test i ≡ false
none_from-holds test p n e i l h =
    let holds : not (test i) ≡ true = all_from-holds (λ i. not (test i)) p n e i l h in ground arith

abbrev pub no_url : Url
no_url = record {
  unparsed_url = none;
  schema = none;
  host = none;
  port = 0;
  path = none;
  query_string = none;
}

abbrev pub no_buf : Buf
no_buf = record { start = 0; end = 0; pos = 0; last = 0 }

-- A new request over such a memory, with the sizes of a small configuration.
abbrev pub request_in : Mem → Request
request_in m = record {
  mem = m;
  free = 1000;
  conf = record {
    client_header_size = 8;
    large_client_header_size = 32;
    content_body_buf_size = 16;
    max_content_len = 64;
  };
  state = stat_none;
  method_str = none;
  method = get;
  url = no_url;
  version_str = none;
  version = http_10;
  status = 0;
  keep_alive = false;
  continued = false;
  header_buf = no_buf;
  headers_in = [];
  headers_out = [];
  in_content_len = negsuc 0;
  out_content_len = negsuc 0;
}
