-- ===== src/Io/Written.antt =====
-- What `nwrite` has written.
use Prim.Native.Nat.{min}
use xwp_server.Base.{
  ℕ, zero, suc, ◌+◌, ◌-◌, ◌≤◌, ◌<◌, ◌≡◌, refl, ap, ◌∙◌, true, false, List, [], ◌∷◌, ◌++◌, length,
  take, drop, ltb, take_all, arith, Bool-cases, inl, inr,
}
use xwp_server.CLib.{Bytes}
use xwp_server.Io.{Send, again, refused, sent, Outcome, wrote, blocked, nwrite_loop, nwrite}

take-add {ℓ} :
    {A : Type ℓ} (xs : List A) (m n : ℕ) → take m xs ++ take n (drop m xs) ≡ take (m + n) xs
take-add xs zero n = let e : zero + n ≡ n = omega arith in rw e refl
take-add [] (suc m) zero = let e : suc m + zero ≡ suc m = omega arith in rw e refl
take-add [] (suc m) (suc n) = let e : suc m + suc n ≡ suc (suc (m + n)) = omega arith in rw e refl
take-add (x ∷ xs) (suc m) n =
    let e : suc m + n ≡ suc (m + n) = omega arith in rw e (ap (λ l. x ∷ l) (take-add xs m n))

-- The result 1 says that the socket took the buffer, and any other that it took a beginning of it.
abbrev pub Prefix : Bytes → Outcome × Bytes → Type 0
Prefix buf (wrote true, out) = out ≡ buf
Prefix buf (wrote false, out) = (n : ℕ) × (n < length buf) × (out ≡ take n buf)
Prefix buf (blocked, out) = (n : ℕ) × (n < length buf) × (out ≡ take n buf)

nwrite_loop-Prefix :
    (buf : Bytes) (sends : List Send) (cur : ℕ) (out : Bytes)
    → out ≡ take cur buf
    → Prefix buf (nwrite_loop buf sends cur out)
unfolding nwrite_loop
nwrite_loop-Prefix buf [] cur out e = elim (Bool-cases (ltb cur (length buf))) [
  | inl more ↦ rw more (cur, ground arith, e)
  | inr full ↦ rw full (e ∙ take_all buf cur (ground arith))
]
nwrite_loop-Prefix buf (again ∷ sends) cur out e = elim (Bool-cases (ltb cur (length buf))) [
  | inl more ↦ rw more (nwrite_loop-Prefix buf sends cur out e)
  | inr full ↦ rw full (e ∙ take_all buf cur (ground arith))
]
nwrite_loop-Prefix buf (refused ∷ sends) cur out e = elim (Bool-cases (ltb cur (length buf))) [
  | inl more ↦ rw more (cur, ground arith, e)
  | inr full ↦ rw full (e ∙ take_all buf cur (ground arith))
]
nwrite_loop-Prefix buf (sent k ∷ sends) cur out e = elim (Bool-cases (ltb cur (length buf))) [
  | inl more ↦
      let n = min (suc k) (length buf - cur) in
      rw more (
        nwrite_loop-Prefix buf sends (cur + n) (out ++ take n (drop cur buf))
          (ap (λ o. o ++ take n (drop cur buf)) e ∙ take-add buf cur n))
  | inr full ↦ rw full (e ∙ take_all buf cur (ground arith))
]

-- The result 1 says that the socket has taken exactly the buffer's bytes, in order and each once; after
-- any other it has taken a proper beginning of them.
pub nwrite-Prefix : (buf : Bytes) (sends : List Send) → Prefix buf (nwrite buf sends)
unfolding nwrite
nwrite-Prefix buf sends = nwrite_loop-Prefix buf sends 0 [] refl

-- How many bytes the calls in front of one that is refused would take.
abbrev pub takes : List Send → ℕ
takes [] = 0
takes (again ∷ sends) = takes sends
takes (refused ∷ sends) = 0
takes (sent k ∷ sends) = takes sends + suc k

nwrite_loop_ends :
    (buf : Bytes) (sends : List Send) (cur : ℕ) (out : Bytes)
    → length buf ≤ cur + takes sends
    → (nwrite_loop buf sends cur out).0 ≡ wrote true
unfolding nwrite_loop
nwrite_loop_ends buf [] cur out h = ground arith
nwrite_loop_ends buf (again ∷ sends) cur out h = elim (Bool-cases (ltb cur (length buf))) [
  | inl more ↦ rw more (nwrite_loop_ends buf sends cur out h)
  | inr full ↦ rw full refl
]
nwrite_loop_ends buf (refused ∷ sends) cur out h = ground arith
nwrite_loop_ends buf (sent k ∷ sends) cur out h = elim (Bool-cases (ltb cur (length buf))) [
  | inl more ↦
      let n = min (suc k) (length buf - cur) in
      rw more (nwrite_loop_ends buf sends (cur + n) (out ++ take n (drop cur buf)) (ground arith))
  | inr full ↦ rw full refl
]

both : (buf : Bytes) (o : Outcome × Bytes) → o.0 ≡ wrote true → Prefix buf o → o ≡ (wrote true, buf)
both buf (wrote true, out) e h = ap (λ b. (wrote true, b)) h
both buf (wrote false, out) e h = cc
both buf (blocked, out) e h = cc

-- If the calls of `send` in front of one that is refused take as many bytes as the buffer has, or
-- would take more, the buffer is written, whatever calls with EINTR or EAGAIN stand between them.
pub nwrite_ends :
    (buf : Bytes) (sends : List Send)
    → length buf ≤ takes sends
    → nwrite buf sends ≡ (wrote true, buf)
unfolding nwrite
nwrite_ends buf sends h =
    both buf (nwrite_loop buf sends 0 []) (nwrite_loop_ends buf sends 0 [] (omega arith))
      (nwrite_loop-Prefix buf sends 0 [] refl)
