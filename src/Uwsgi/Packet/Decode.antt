-- ===== src/Uwsgi/Packet/Decode.antt =====
-- Reading the variables of a packet back, as the uwsgi protocol has it: each a size of two bytes with
-- the low one first and that many bytes for its name, and the same for its value.
use mathlib.Core.List.{append_assoc}
use xwp_server.Base.{
  ℕ, zero, suc, ◌+◌, ◌*◌, ◌≤◌, ◌<◌, ◌^◌, ◌≡◌, refl, List, [], ◌∷◌, ◌++◌, length, length-append,
  Option, none, some, arith, ◌/◌, ◌%◌,
}
use xwp_server.CLib.{Bytes}
use xwp_server.Uwsgi.Packet.{
  uint16_little_endian, upstream_uwsgi_add_param, add_params, Env, cgi_params, header_params,
  packet_vars,
}

take_bytes : ℕ → Bytes → Option (Bytes × Bytes)
take_bytes zero s = some ([], s)
take_bytes (suc n) [] = none
take_bytes (suc n) (c ∷ s) = elim (take_bytes n s) [ none ↦ none | some (a, b) ↦ some (c ∷ a, b) ]

-- A size and as many bytes.
read_sized : Bytes → Option (Bytes × Bytes)
unfolding take_bytes
read_sized (lo ∷ hi ∷ s) = take_bytes (lo + hi * 256) s
read_sized _ = none

-- All variables; one round for each, and a variable takes four bytes at least.
decode : ℕ → Bytes → Option (List (Bytes × Bytes))
decode fuel [] = some []
decode zero (c ∷ s) = none
decode (suc fuel) (c ∷ s) = elim (read_sized (c ∷ s)) [
  | none ↦ none
  | some (name, t) ↦ elim (read_sized t) [
    | none ↦ none
    | some (value, u) ↦ elim (decode fuel u) [
      | none ↦ none
      | some params ↦ some ((name, value) ∷ params)
    ]
  ]
]

pub decode_vars : Bytes → Option (List (Bytes × Bytes))
unfolding decode
decode_vars s = decode (length s) s

take_bytes-append : (s t : Bytes) → take_bytes (length s) (s ++ t) ≡ some (s, t)
unfolding take_bytes
take_bytes-append [] t = refl
take_bytes-append (c ∷ s) t = rw (take_bytes-append s t)

read_sized-append :
    (s t : Bytes)
    → length s < 2 ^ 16
    → read_sized (uint16_little_endian (length s) ++ (s ++ t)) ≡ some (s, t)
unfolding read_sized uint16_little_endian
read_sized-append s t h =
    let size : length s % 256 + length s / 256 % 256 * 256 ≡ length s = omega arith in
    rw size (take_bytes-append s t)

-- Each name and value is short enough for its size.
abbrev pub Fit : List (Bytes × Bytes) → Type 0
Fit [] = Unit {0}
Fit (p ∷ params) = (length p.0 < 2 ^ 16) × (length p.1 < 2 ^ 16) × Fit params

add_param-append :
    (name value rest : Bytes)
    → upstream_uwsgi_add_param name value ++ rest
      ≡ uint16_little_endian (length name)
        ++ (name ++ (uint16_little_endian (length value) ++ (value ++ rest)))
unfolding upstream_uwsgi_add_param
add_param-append name value rest = simp append_assoc

decode-step :
    (fuel c : ℕ) (s name t value u : Bytes) (params : List (Bytes × Bytes))
    → read_sized (c ∷ s) ≡ some (name, t)
    → read_sized t ≡ some (value, u)
    → decode fuel u ≡ some params
    → decode (suc fuel) (c ∷ s) ≡ some ((name, value) ∷ params)
unfolding decode
decode-step fuel c s name t value u params e f g = ground arith

decode-add_params :
    (params : List (Bytes × Bytes)) (fuel : ℕ)
    → length params ≤ fuel
    → Fit params
    → decode fuel (add_params params) ≡ some params
unfolding add_params uint16_little_endian
decode-add_params [] fuel h f = unfold decode in refl
decode-add_params ((name, value) ∷ params) zero h f = absurd (omega arith)
decode-add_params ((name, value) ∷ params) (suc fuel) h f =
    let rest = uint16_little_endian (length value) ++ (value ++ add_params params) in
    rw (add_param-append name value (add_params params)) (
      decode-step fuel _ _ name rest value (add_params params) params
        (read_sized-append name rest f.0) (read_sized-append value (add_params params) f.1)
        (decode-add_params params fuel (omega arith) f.2))

-- Every variable takes a byte at least, so there are no more of them than bytes.
length-le-add_params : (params : List (Bytes × Bytes)) → length params ≤ length (add_params params)
unfolding add_params upstream_uwsgi_add_param uint16_little_endian
length-le-add_params [] = omega arith
length-le-add_params ((name, value) ∷ params) = omega (
  arith,
  length-append (upstream_uwsgi_add_param name value) (add_params params),
  length-le-add_params params,
)

-- A backend that reads the packet's variables gets those that were written, in their order, provided
-- that each name and each value is shorter than 64 KiB.
pub decode_vars-packet_vars :
    (e : Env)
    → Fit (cgi_params e ++ header_params e.headers)
    → decode_vars (packet_vars e) ≡ some (cgi_params e ++ header_params e.headers)
unfolding decode_vars packet_vars
decode_vars-packet_vars e f =
    decode-add_params _ _ (length-le-add_params (cgi_params e ++ header_params e.headers)) f
