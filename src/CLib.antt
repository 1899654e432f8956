-- ===== src/CLib.antt =====
-- What src/*.c uses of the C library, on strings as lists of bytes without their trailing NUL:
-- the character classes of ctype.h, `strcmp`, `strncmp`, `strncasecmp`, `atoi`, and `%d`.
pub mod Compare
pub mod Decimal
use Prim.Native.Nat.{bit_or}
use Prim.Native.Char.{code}
use Prim.Native.String.{String}
use xwp_server.Base.{
  ℕ, zero, suc, ◌+◌, ◌-◌, ◌*◌, ◌%◌, ◌^◌, Bool, true, false, ◌&&◌, ◌||◌, List, [], ◌∷◌, leb, ltb,
  ◌==◌, if◌then◌else◌, ℤ, pos, negsuc,
}

abbrev pub Bytes : Type 0
Bytes = List ℕ

-- The bytes of an ASCII literal.
abbrev pub codes : String → Bytes
codes String.[] = []
codes (String.◌∷◌ c s) = code c ∷ codes s

unfoldable pub isspace : ℕ → Bool
isspace c = c == 32 || (leb 9 c && leb c 13)

unfoldable pub isdigit : ℕ → Bool
isdigit c = leb b'0' c && leb c b'9'

unfoldable pub tolower : ℕ → ℕ
tolower c = if leb b'A' c && leb c b'Z' then c + 32 else c

-- Both strings agree, after `f`, up to `n` bytes or the end of the shorter one's NUL.
unfoldable pub agree : (ℕ → ℕ) → ℕ → Bytes → Bytes → Bool
agree f zero s t = true
agree f (suc n) [] [] = true
agree f (suc n) [] (y ∷ t) = false
agree f (suc n) (x ∷ s) [] = false
agree f (suc n) (x ∷ s) (y ∷ t) = f x == f y && agree f n s t

-- `strncmp(s, t, n) == 0`
abbrev pub strncmp_eq : Bytes → Bytes → ℕ → Bool
strncmp_eq s t n = agree (λ c. c) n s t

-- `strncasecmp(s, t, n) == 0`
abbrev pub strncasecmp_eq : Bytes → Bytes → ℕ → Bool
strncasecmp_eq s t n = agree tolower n s t

-- `strcmp(s, t) == 0`
unfoldable pub strcmp_eq : Bytes → Bytes → Bool
strcmp_eq [] [] = true
strcmp_eq [] (y ∷ t) = false
strcmp_eq (x ∷ s) [] = false
strcmp_eq (x ∷ s) (y ∷ t) = x == y && strcmp_eq s t

-- The value of the decimal digits at the front, on top of `acc`.
unfoldable pub digits_value : ℕ → Bytes → ℕ
unfolding isdigit
digits_value acc [] = acc
digits_value acc (c ∷ s) = if isdigit c then digits_value (acc * 10 + (c - b'0')) s else acc

unfoldable pub skip_spaces : Bytes → Bytes
unfolding isspace
skip_spaces [] = []
skip_spaces (c ∷ s) = if isspace c then skip_spaces s else c ∷ s

-- The low 32 bits of an integer, read as an `int`.
unfoldable pub wrap_int : ℕ → ℤ
wrap_int w = if ltb w (2 ^ 31) then pos w else negsuc (2 ^ 32 - w - 1)

unfoldable pub clamp_long : ℕ → ℕ → ℕ
clamp_long limit n = if ltb limit n then limit else n

-- After the sign: the value is clamped to a `long`, and its low 32 bits are the `int`.
unfoldable pub signed_value : Bytes → ℤ
unfolding digits_value wrap_int clamp_long
signed_value [] = pos 0
signed_value (c ∷ s) =
    if c == b'-'
    then wrap_int ((2 ^ 64 - clamp_long (2 ^ 63) (digits_value 0 s)) % 2 ^ 32)
    else if c == b'+'
    then wrap_int (clamp_long (2 ^ 63 - 1) (digits_value 0 s) % 2 ^ 32)
    else wrap_int (clamp_long (2 ^ 63 - 1) (digits_value 0 (c ∷ s)) % 2 ^ 32)

-- `atoi`, which glibc defines as `(int) strtol(s, NULL, 10)`.
unfoldable pub atoi : Bytes → ℤ
unfolding skip_spaces signed_value
atoi s = signed_value (skip_spaces s)

-- `((c)|0x20) >= 'a' && ((c)|0x20) <= 'z'`, on a byte
unfoldable pub is_character : ℕ → Bool
is_character c = leb b'a' (bit_or c 0x20) && leb (bit_or c 0x20) b'z'
