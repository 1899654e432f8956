-- ===== src/Uwsgi/Packet/Len.antt =====
-- The announced size is the size that is sent.
use xwp_server.Base.{
  ℕ, ◌+◌, ◌<◌, ◌%◌, ◌^◌, ◌≡◌, refl, List, [], ◌∷◌, ◌++◌, length, length-append, length-map, arith,
  Bool-cases, inl, inr,
}
use xwp_server.CLib.{Bytes}
use xwp_server.Uwsgi.Packet.{
  uint16_little_endian, upstream_uwsgi_add_param, Env, is_content_header, add16, add_headers_len,
  fixed_len, upstream_uwsgi_calc_packet_len, cgi_byte, cgi_name, cgi_params, header_params,
  add_params, packet_vars,
}

length-add_param :
    (name value : Bytes)
    → length (upstream_uwsgi_add_param name value) ≡ length name + length value + 4
unfolding upstream_uwsgi_add_param
length-add_param name value =
    omega (arith, length-append name (uint16_little_endian (length value) ++ value))

length-add_params_append :
    (ps qs : List (Bytes × Bytes))
    → length (add_params (ps ++ qs)) ≡ length (add_params ps) + length (add_params qs)
unfolding add_params
length-add_params_append [] qs = omega arith
length-add_params_append ((name, value) ∷ ps) qs = omega (
  arith,
  length-append (upstream_uwsgi_add_param name value) (add_params (ps ++ qs)),
  length-append (upstream_uwsgi_add_param name value) (add_params ps),
  length-add_params_append ps qs,
)

length-cgi_name : (name : Bytes) → length (cgi_name name) ≡ 5 + length name
unfolding cgi_name
length-cgi_name name = omega (arith, length-map name cgi_byte)

headers_len :
    (d : ℕ) (headers : List (Bytes × Bytes))
    → add_headers_len d headers % 2 ^ 16
      ≡ (d + length (add_params (header_params headers))) % 2 ^ 16
unfolding add_headers_len header_params add_params
headers_len d [] = omega arith
headers_len d ((name, value) ∷ headers) = elim (Bool-cases (is_content_header name)) [
  | inl skip ↦ rw skip (headers_len d headers)
  | inr keep ↦ rw keep (
      omega (
        arith,
        headers_len (add16 d (5 + length name + length value + 4)) headers,
        length-append (upstream_uwsgi_add_param (cgi_name name) value)
            (add_params (header_params headers)),
        length-add_param (cgi_name name) value,
        length-cgi_name name,
      ))
]

-- The sum of the sizes of variables.
abbrev params_len : List (Bytes × Bytes) → ℕ
params_len [] = 0
params_len ((name, value) ∷ params) = length name + length value + 4 + params_len params

length-add_params : (ps : List (Bytes × Bytes)) → length (add_params ps) ≡ params_len ps
unfolding add_params
length-add_params [] = refl
length-add_params ((name, value) ∷ ps) = omega (
  arith,
  length-append (upstream_uwsgi_add_param name value) (add_params ps),
  length-add_param name value,
  length-add_params ps,
)

headers_len-lt :
    (d : ℕ) (headers : List (Bytes × Bytes)) → d < 2 ^ 16 → add_headers_len d headers < 2 ^ 16
unfolding add_headers_len
headers_len-lt d [] h = h
headers_len-lt d ((name, value) ∷ headers) h = elim (Bool-cases (is_content_header name)) [
  | inl skip ↦ rw skip (headers_len-lt d headers h)
  | inr keep ↦
      rw keep (headers_len-lt (add16 d (5 + length name + length value + 4)) headers (omega arith))
]

fixed_len_lem : (e : Env) → fixed_len e ≡ params_len (cgi_params e) % 2 ^ 16
unfolding fixed_len cgi_params
fixed_len_lem e = omega arith

-- The announced size is the number of bytes behind the packet's header, modulo 2 ^ 16: so the final
-- `assert` holds exactly if the variables take less than 64 KiB.
pub calc_packet_len-length :
    (e : Env) → upstream_uwsgi_calc_packet_len e ≡ length (packet_vars e) % 2 ^ 16
unfolding upstream_uwsgi_calc_packet_len packet_vars
calc_packet_len-length e =
    let fixed = fixed_len_lem e in
    omega (
      arith,
      headers_len-lt (fixed_len e) e.headers (omega arith),
      headers_len (fixed_len e) e.headers,
      length-add_params_append (cgi_params e) (header_params e.headers),
      length-add_params (cgi_params e),
    )
