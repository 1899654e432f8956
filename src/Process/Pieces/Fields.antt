-- ===== src/Process/Pieces/Fields.antt =====
-- The text of header lines, as a client sends it.
use xwp_server.Base.{
  ℕ, ◌+◌, ◌-◌, ◌^◌, ◌≤◌, ◌<◌, ◌≡◌, ◌≢◌, refl, ap, ◌∙◌, Bool, true, false, not, ◌&&◌, ◌==◌, List, [],
  ◌∷◌, ◌++◌, length, length-append, arith, subst,
}
use xwp_server.CLib.{Bytes, codes, isspace}
use xwp_server.Memory.Stands.{
  Stands, AllAre, Stands-append, Stands-slice, Stands-AllAre, AllAre-map,
}
use xwp_server.Memory.{Mem, slice}
use xwp_server.Parse.HeaderLine.Block.{IsBlock, empty, line}
use xwp_server.Parse.HeaderLine.Reads.{IsHeader}
use xwp_server.Parse.Token.{ends_line}

-- `name: value`, up to the line feed behind it.
abbrev pub line_text : Bytes → Bytes → Bytes
line_text name value = name ++ (b':' ∷ b' ' ∷ (value ++ (b'\r' ∷ [])))

abbrev pub block_text : List (Bytes × Bytes) → Bytes
block_text [] = codes "\r\n"
block_text ((name, value) ∷ fields) = line_text name value ++ (b'\n' ∷ block_text fields)

-- A byte of a name: no blank, no NUL and no colon.
abbrev pub is_name_byte : ℕ → Bool
is_name_byte c = not (isspace c) && (not (c == 0) && not (c == b':'))

abbrev pub BeginsSolid : Bytes → Type 0
BeginsSolid [] = ⊥
BeginsSolid (c ∷ s) = isspace c ≡ false

-- Names and values that are not empty; a value begins with no blank, and holds no line's end.
abbrev pub AreFields : List (Bytes × Bytes) → Type 0
AreFields [] = Unit {0}
AreFields ((name, value) ∷ fields) =
    (0 < length name)
    × AllAre is_name_byte true name
    × BeginsSolid value
    × AllAre ends_line false value
    × AreFields fields

name_line : (c : ℕ) → is_name_byte c ≡ true → ends_line c ≡ false
unfolding isspace
name_line c h = ground arith

name_space : (c : ℕ) → is_name_byte c ≡ true → isspace c ≡ false
name_space c h = ground arith

name_colon : (c : ℕ) → is_name_byte c ≡ true → c ≢ b':'
name_colon c h = ground arith

blank_space : isspace b' ' ≡ true
unfolding isspace
blank_space = refl

AllAre-append :
    (f : ℕ → Bool) (v : Bool) (c d : Bytes) → AllAre f v c → AllAre f v d → AllAre f v (c ++ d)
AllAre-append f v [] d h k = k
AllAre-append f v (x ∷ c) d h k = (h.0, AllAre-append f v c d h.1 k)

first_solid :
    (m : Mem) (v : ℕ) (value : Bytes) → Stands m v value → BeginsSolid value → isspace (m v) ≡ false
first_solid m v [] s h = absurd h
first_solid m v (c ∷ value) s h = ap isspace s.0 ∙ h

solid_some : (value : Bytes) → BeginsSolid value → 0 < length value
solid_some [] h = absurd h
solid_some (c ∷ value) h = omega arith

-- Where such a line stands, with its line feed, the parser finds a header.
module _ (m : Mem) (p end : ℕ) (name value rest : Bytes) where
  abbrev colon_at : ℕ
  colon_at = p + length name

  abbrev value_at : ℕ
  value_at = colon_at + 1 + 1

  abbrev pub value_stop : ℕ
  value_stop = value_at + length value

  line_text-IsHeader :
      Stands m p (line_text name value ++ (b'\n' ∷ rest))
      → 0 < length name
      → AllAre is_name_byte true name
      → BeginsSolid value
      → AllAre ends_line false value
      → value_stop + 1 ≤ end
      → end < 2 ^ 64
      → IsHeader m p colon_at value_at value_stop end
        × (slice m p (colon_at - p) ≡ name)
        × (slice m value_at (value_stop - value_at) ≡ value)
        × Stands m (value_stop + 1 + 1) rest
  line_text-IsHeader h n bytes solid plain fits small =
      let whole = length-append name (b':' ∷ b' ' ∷ (value ++ (b'\r' ∷ []))) in
      let half = length-append value (b'\r' ∷ []) in
      let feed = Stands-append m p (line_text name value) (b'\n' ∷ rest) h in
      let size : p + length (line_text name value) ≡ value_stop + 1 = omega arith in
      let parts = Stands-append m p name (b':' ∷ b' ' ∷ (value ++ (b'\r' ∷ []))) feed.0 in
      let text = Stands-append m value_at value (b'\r' ∷ []) parts.1.1.1 in
      let is_plain : AllAre ends_line false (line_text name value) =
        AllAre-append ends_line false name (b':' ∷ b' ' ∷ (value ++ (b'\r' ∷ [])))
          (AllAre-map is_name_byte ends_line true false name name_line bytes)
          (refl, (refl, AllAre-append ends_line false value (b'\r' ∷ []) plain (refl, tt))) in
      let in_name = Stands-AllAre m p is_name_byte true name parts.0 bytes in
      let behind = subst (λ a. Stands m a (b'\n' ∷ rest)) size feed.1 in
      let name_size : colon_at - p ≡ length name = omega arith in
      let value_size : value_stop - value_at ≡ length value = omega arith in
      (
        record {
          name_some = omega arith;
          value_after = omega arith;
          value_some = omega (arith, solid_some value solid);
          fits = fits;
          small = small;
          plain = λ i l k.
              Stands-AllAre m p ends_line false (line_text name value) feed.0 is_plain i l
                (omega arith);
          no_colon = λ i l k. name_colon (m i) (in_name i l k);
          name_first = name_space (m p) (in_name p (omega arith) (omega arith));
          name_last =
              name_space (m (colon_at - 1)) (in_name (colon_at - 1) (omega arith) (omega arith));
          colon = parts.1.0;
          blank = λ i l k.
              let here : i ≡ colon_at + 1 = omega arith in
              ap isspace (ap m here ∙ parts.1.1.0) ∙ blank_space;
          value_first = first_solid m value_at value text.0 solid;
          carriage = text.1.0;
          newline = behind.0;
        },
        ap (slice m p) name_size ∙ Stands-slice m p name parts.0,
        ap (slice m value_at) value_size ∙ Stands-slice m value_at value text.0,
        behind.1,
      )

-- Where the text of header lines stands, with the empty line behind them, the parser finds their block.
pub block_text-IsBlock :
    (m : Mem) (p end : ℕ) (fields : List (Bytes × Bytes))
    → Stands m p (block_text fields)
    → AreFields fields
    → p + length (block_text fields) ≤ end
    → end < 2 ^ 64
    → IsBlock m end p fields (p + length (block_text fields))
block_text-IsBlock m p end [] h k fits small = empty p (omega arith) h.0 h.1.0
block_text-IsBlock m p end ((name, value) ∷ fields) h k fits small =
    let stop = value_stop m p end name value (block_text fields) in
    let both = length-append (line_text name value) (b'\n' ∷ block_text fields) in
    let whole = length-append name (b':' ∷ b' ' ∷ (value ++ (b'\r' ∷ []))) in
    let half = length-append value (b'\r' ∷ []) in
    let read =
      line_text-IsHeader m p end name value (block_text fields) h k.0 k.1 k.2 k.3 (omega arith)
        small in
    let rest = block_text-IsBlock m (stop + 1 + 1) end fields read.3 k.4 (omega arith) small in
    let same : stop + 1 + 1 + length (block_text fields)
        ≡ p + length (block_text ((name, value) ∷ fields)) =
      omega arith in
    subst (IsBlock m end p ((name, value) ∷ fields)) same (
      line p (p + length name) (p + length name + 1 + 1) stop
        (stop + 1 + 1 + length (block_text fields)) name value fields read.0 read.1 read.2 rest)
