-- ===== src/Prelude/Text.antt =====
-- Python's `str` where the program walks it: `str.strip`, and the order of SQLite's BINARY collation,
-- which on UTF-8 is the order of code points.
use Prim.Native.Nat.{ℕ, zero, suc, ◌/◌, ◌%◌}
use Prim.Native.Char.{Char, code}
use Prim.Native.String.{String, [], ◌∷◌}
use mathlib.Core.Path.{◌≡◌, refl}
use text.Mathlib.Text.{◌==◌}
use mathlib.Core.Bool.{Bool, true, false, ◌&&◌, ◌||◌}
use native.Mathlib.Omega.{arith}
use text.Mathlib.TextEquality.{codes_equal}
use sisyphus_harness.Prelude.Tests.{ltb, leb, eqb, if◌then◌else◌}

-- `str.isspace` of one character.
unfoldable pub is_space : ℕ → Bool
is_space c =
    (leb 9 c && leb c 13)
    || (leb 28 c && leb c 32)
    || eqb c 0x85
    || eqb c 0xa0
    || eqb c 0x1680
    || (leb 0x2000 c && leb c 0x200a)
    || eqb c 0x2028
    || eqb c 0x2029
    || eqb c 0x202f
    || eqb c 0x205f
    || eqb c 0x3000

unfoldable pub lstrip : String → String
unfolding is_space
lstrip [] = []
lstrip (c ∷ s) = if is_space (code c) then lstrip s else c ∷ s

keep_unless_blank : Char → String → String
keep_unless_blank c [] = if is_space (code c) then [] else c ∷ []
keep_unless_blank c (d ∷ s) = c ∷ d ∷ s

unfoldable pub rstrip : String → String
unfolding keep_unless_blank is_space
rstrip [] = []
rstrip (c ∷ s) = keep_unless_blank c (rstrip s)

-- `str.strip()`
unfoldable pub strip : String → String
unfolding lstrip rstrip
strip s = lstrip (rstrip s)

-- `len(s)`
unfoldable pub characters : String → ℕ
characters [] = 0
characters (c ∷ s) = suc (characters s)

-- `s[:n]`
unfoldable pub first_characters : ℕ → String → String
first_characters zero s = []
first_characters (suc n) [] = []
first_characters (suc n) (c ∷ s) = c ∷ first_characters n s

-- `s + t`
unfoldable pub join_text : String → String → String
join_text [] t = t
join_text (c ∷ s) t = c ∷ join_text s t

-- `any(character.isspace() for character in s)`
unfoldable pub has_space : String → Bool
unfolding is_space
has_space [] = false
has_space (c ∷ s) = is_space (code c) || has_space s

-- `any(ord(character) < 32 for character in s)`
unfoldable pub has_control : String → Bool
has_control [] = false
has_control (c ∷ s) = ltb (code c) 32 || has_control s

-- `"\0" in s`
unfoldable pub has_null : String → Bool
has_null [] = false
has_null (c ∷ s) = eqb (code c) 0 || has_null s

-- `s[n:]`
unfoldable pub drop_characters : ℕ → String → String
drop_characters zero s = s
drop_characters (suc n) [] = []
drop_characters (suc n) (c ∷ s) = drop_characters n s

abbrev pub is_hex : Char → Bool
is_hex c = (leb 48 (code c) && leb (code c) 57) || (leb 97 (code c) && leb (code c) 102)

unfoldable pub is_all_hex : String → Bool
is_all_hex [] = true
is_all_hex (c ∷ s) = is_hex c && is_all_hex s

-- The regular expression `sha256:[0-9a-f]{64}`, matched in full.
unfoldable pub is_sha256 : String → Bool
unfolding first_characters drop_characters characters is_all_hex
is_sha256 s =
    first_characters 7 s == "sha256:"
    && eqb (characters (drop_characters 7 s)) 64
    && is_all_hex (drop_characters 7 s)

-- The decimal digit of a number below 10.
unfoldable pub digit : ℕ → String
unfolding first_characters drop_characters
digit d = first_characters 1 (drop_characters d "0123456789")

-- The decimal of a number that has `n` digits at most.
unfoldable pub decimal : ℕ → ℕ → String
unfolding join_text digit
decimal zero i = ""
decimal (suc n) i =
    let higher = decimal n (i / 10) in
    if ltb i 10 then digit i else join_text higher (digit (i % 10))

-- The last `n` decimal digits of a number, with leading zeros.
unfoldable pub last_digits : ℕ → ℕ → String
unfolding join_text digit
last_digits zero i = ""
last_digits (suc n) i = join_text (last_digits n (i / 10)) (digit (i % 10))

-- `f"{i:04d}"`
unfoldable pub padded_decimal : ℕ → String
unfolding decimal last_digits
padded_decimal i = if ltb i 10000 then last_digits 4 i else decimal i i

-- `s <= t` of two texts, character by character.
unfoldable pub text_le : String → String → Bool
text_le [] t = true
text_le (c ∷ s) [] = false
text_le (c ∷ s) (d ∷ t) =
    if ltb (code c) (code d) then true else if ltb (code d) (code c) then false else text_le s t

pub text_le_total : (s t : String) → text_le s t ≡ false → text_le t s ≡ true
unfolding text_le
text_le_total [] t h = ground arith
text_le_total (c ∷ s) [] h = refl
text_le_total (c ∷ s) (d ∷ t) h = ground (arith, text_le_total s t)

pub text_le_trans : (s t u : String) → text_le s t ≡ true → text_le t u ≡ true → text_le s u ≡ true
unfolding text_le
text_le_trans [] t u h k = refl
text_le_trans (c ∷ s) [] u h k = cc
text_le_trans (c ∷ s) (d ∷ t) [] h k = cc
text_le_trans (c ∷ s) (d ∷ t) (e ∷ u) h k = ground (arith, text_le_trans s t u)

padded_decimal_test : (padded_decimal 42 ≡ "0042") × (padded_decimal 12345 ≡ "12345")
unfolding padded_decimal
padded_decimal_test = (refl, refl)

strip_test : strip " a b\t" ≡ "a b"
unfolding strip
strip_test = refl

code-injective : (c d : Char) → code c ≡ code d → c ≡ d
code-injective c d h = codes_equal c d (ground arith)

pub text_le_antisymm : (s t : String) → text_le s t ≡ true → text_le t s ≡ true → s ≡ t
unfolding text_le
text_le_antisymm [] [] h k = refl
text_le_antisymm [] (d ∷ t) h k = cc
text_le_antisymm (c ∷ s) [] h k = cc
text_le_antisymm (c ∷ s) (d ∷ t) h k =
    let heads : c ≡ d = code-injective c d (ground arith) in
    let tails : s ≡ t = text_le_antisymm s t (ground arith) (ground arith) in λ i. heads i ∷ tails i
