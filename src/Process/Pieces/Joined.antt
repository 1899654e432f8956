-- ===== src/Process/Pieces/Joined.antt =====
-- The loop over the pieces of a line.
use xwp_server.Base.{
  ℕ, ◌+◌, ◌-◌, ◌^◌, ◌≤◌, ◌<◌, ◌≡◌, refl, sym, ap, ◌∙◌, Bool, false, ◌==◌, not, List, ◌∷◌, ◌++◌,
  length, length-append, take, take_all, arith, inl, inr, ◌⊎◌,
}
use xwp_server.CLib.{Bytes, isspace}
use xwp_server.Memory.Pieces.{
  write_all-append, write_all_ne, IsFreeOf, write_all-IsFreeOf, seek-cong, seek-add,
}
use xwp_server.Memory.{Mem, seek, write_all}
use xwp_server.Parse.HeaderLine.{size_t_sub}
use xwp_server.Parse.RequestLine.{skip_space}
use xwp_server.Process.Pieces.{Waits, advance, IsResumable}
use xwp_server.Process.{
  Parser, Recv, received, Reply, room_for, receive, after_parse, line_round, after_recv, line_wait,
}
use xwp_server.Request.{Buf, Request}

-- What fits is received whole.
room_for_all : (b : Buf) (c : Bytes) → b.end < 2 ^ 64 → b.last + length c ≤ b.end → room_for b c ≡ c
unfolding room_for
room_for_all b c w h =
    let size : size_t_sub b.end b.last ≡ b.end - b.last = omega arith in
    ap (λ n. take n c) size ∙ take_all c (b.end - b.last) (omega arith)

-- After a piece without a line's end, the buffer still holds none.
pub receive-Waits :
    (r : Request) (b : Buf) (c : Bytes)
    → Waits r.mem b
    → IsFreeOf b'\n' c
    → b.last + length c ≤ b.end
    → let (r', b') = receive r b c in Waits r'.mem b'
unfolding receive
receive-Waits r b c w f h = (
  omega (arith, w.0),
  h,
  λ i l k. elim (cases i b.last) [
    | inl e ↦ λ z. w.2 i l e (sym (write_all_ne r.mem b.last c i (inl e)) ∙ z)
    | inr e ↦ write_all-IsFreeOf r.mem b.last b'\n' c i f e k
  ],
  λ i l k. write_all_ne r.mem b.last c i (inr l) ∙ w.3 i (omega arith) k,
)
  where
    cases : (i l : ℕ) → (i < l) ⊎ (l ≤ i)
    cases i l = omega arith

abbrev pub Going : Type 0
Going = Bool → Request → Buf → Reply × Request

abbrev pub with_received : Request → Buf → Bytes → Request
with_received r b c = record r { mem = write_all r.mem b.last c }

abbrev pub behind : Buf → Bytes → Buf
behind b c = record b { last = b.last + length c }

not_full : (last end : ℕ) → last < end → (last == end) ≡ false
not_full last end h = ground arith

-- Skipping in two steps, with more bytes received in between.
skip_twice :
    (m m' : Mem) (p last more : ℕ)
    → p ≤ last
    → ((i : ℕ) → i < last → m i ≡ m' i)
    → let q = skip_space m p (last - p) in
      skip_space m' q (last + more - q) ≡ skip_space m' p (last + more - p)
unfolding skip_space
skip_twice m m' p last more h same =
    let stop : ℕ → Bool = λ c. not (isspace c) in
    let first : seek stop m p (last - p) ≡ seek stop m' p (last - p) =
      seek-cong stop m m' p (last - p) (λ i l k. same i (omega arith)) in
    let q = seek stop m' p (last - p) in
    let whole : p + (last - p + more) ≡ last + more = omega arith in
    let size : last - p + more ≡ last + more - p = omega arith in
    ap (λ q. seek stop m' q (last + more - q)) first
    ∙ ap (λ n. seek stop m' q (n - q)) (sym whole)
    ∙ seek-add stop m' p (last - p) more
    ∙ ap (seek stop m' p) size

module _ (parse : Parser) (parser : IsResumable parse) where
  -- The round after such a piece only skips blanks.
  pub line_round_again :
      (grown : Bool) (r : Request) (b : Buf) (go_on : Going)
      → Waits r.mem b
      → b.last < b.end
      → line_round parse grown r b go_on ≡ go_on grown r (advance r.mem b)
  unfolding line_round after_parse
  line_round_again grown r b go_on w h =
      rw (parser.waits r b w, after_parse, not_full b.last b.end h) refl

  -- Blanks that were skipped beforehand make no difference to a round.
  skipped_on :
      (grown : Bool) (r : Request) (b : Buf) (q : ℕ) (go_on : Going)
      → skip_space r.mem q (b.last - q) ≡ skip_space r.mem b.pos (b.last - b.pos)
      → line_round parse grown r (record b { pos = q }) go_on ≡ line_round parse grown r b go_on
  unfolding line_round
  skipped_on grown r b q go_on e =
      ap (λ (code, r', b'). after_parse code grown r' b' go_on) (parser.resumes r b q e)

  -- What is received is stored, and the next round follows.
  pub wait_received :
      (ev : List Recv) (grown : Bool) (r : Request) (b : Buf) (x : ℕ) (c : Bytes)
      → b.end < 2 ^ 64
      → b.last + length (x ∷ c) ≤ b.end
      → line_wait parse (received (x ∷ c) ∷ ev) grown r b
        ≡ line_round parse grown
            (with_received r b (x ∷ c))
            (behind b (x ∷ c))
            (λ g r b. line_wait parse ev g r b)
  unfolding line_wait after_recv receive
  wait_received ev grown r b x c k h =
      ap (after_recv parse grown r b (λ g r b. line_wait parse ev g r b))
        (room_for_all b (x ∷ c) k h)

  -- A piece without a line's end is stored, and the blanks are skipped.
  pub wait_step :
      (ev : List Recv) (grown : Bool) (r : Request) (b : Buf) (x : ℕ) (c : Bytes)
      → Waits r.mem b
      → b.end < 2 ^ 64
      → IsFreeOf b'\n' (x ∷ c)
      → b.last + length (x ∷ c) < b.end
      → line_wait parse (received (x ∷ c) ∷ ev) grown r b
        ≡ line_wait parse ev grown
            (with_received r b (x ∷ c))
            (advance (write_all r.mem b.last (x ∷ c)) (behind b (x ∷ c)))
  unfolding receive
  wait_step ev grown r b x c w k f h =
      wait_received ev grown r b x c k (omega arith)
      ∙ line_round_again grown (with_received r b (x ∷ c)) (behind b (x ∷ c)) _
          (receive-Waits r b (x ∷ c) w f (omega arith)) h

  -- Two pieces, the first without a line's end, are as good as one.
  pub wait_join :
      (ev : List Recv) (grown : Bool) (r : Request) (b : Buf) (x y : ℕ) (c d : Bytes)
      → Waits r.mem b
      → b.end < 2 ^ 64
      → IsFreeOf b'\n' (x ∷ c)
      → b.last + length ((x ∷ c) ++ (y ∷ d)) ≤ b.end
      → line_wait parse (received (x ∷ c) ∷ received (y ∷ d) ∷ ev) grown r b
        ≡ line_wait parse (received ((x ∷ c) ++ (y ∷ d)) ∷ ev) grown r b
  wait_join ev grown r b x y c d w k f h =
      let total = length-append (x ∷ c) (y ∷ d) in
      let m1 = write_all r.mem b.last (x ∷ c) in
      let l1 = b.last + length (x ∷ c) in
      let m2 = write_all m1 l1 (y ∷ d) in
      let go : Going = λ g r b. line_wait parse ev g r b in
      let skipped =
        skip_twice m1 m2 b.pos l1 (length (y ∷ d)) (omega (arith, w.0))
          (λ i l. sym (write_all_ne m1 l1 (y ∷ d) i (inl l))) in
      let stored : m2 ≡ write_all r.mem b.last ((x ∷ c) ++ (y ∷ d)) =
        sym (write_all-append r.mem b.last (x ∷ c) (y ∷ d)) in
      let last : l1 + length (y ∷ d) ≡ b.last + length ((x ∷ c) ++ (y ∷ d)) = omega arith in
      wait_step (received (y ∷ d) ∷ ev) grown r b x c w k f (omega arith)
      ∙ wait_received ev grown (with_received r b (x ∷ c)) (advance m1 (behind b (x ∷ c))) y d k
          (omega arith)
      ∙ skipped_on grown (record r { mem = m2 }) (record b { last = l1 + length (y ∷ d) })
          (skip_space m1 b.pos (l1 - b.pos)) go skipped
      ∙ ap
          (λ m.
            line_round parse grown (record r { mem = m }) (record b { last = l1 + length (y ∷ d) })
              go)
          stored
      ∙ ap
          (λ n.
            line_round parse grown (with_received r b ((x ∷ c) ++ (y ∷ d))) (record b { last = n })
              go)
          last
      ∙ sym (wait_received ev grown r b x (c ++ (y ∷ d)) k h)
