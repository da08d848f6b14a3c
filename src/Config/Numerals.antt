-- ===== src/Config/Numerals.antt =====
-- The numerals of src/config.c: `atoi` and `strtoul` of the C library, where `int` and `unsigned long`
-- have 32 bits. For a numeral that is out of range `strtoul` gives the greatest value.
use Prim.Native.Char.{code}
use Prim.Native.String.{String}
use montion_sense.Prelude.{
  ℕ, ◌+◌, ◌-◌, ◌*◌, ◌%◌, ◌^◌, Bool, true, false, ◌&&◌, ◌||◌, List, [], ◌∷◌, ltb, leb, ◌==◌,
  if◌then◌else◌,
}
use montion_sense.Prelude.Int.{ℤ, pos, negsuc}

abbrev codes : String → List ℕ
codes String.[] = []
codes (String.◌∷◌ c s) = code c ∷ codes s

-- `isspace` of the C locale
abbrev is_space : ℕ → Bool
is_space c = c == 32 || (leb 9 c && leb c 13)

abbrev is_digit : ℕ → Bool
is_digit c = leb 48 c && leb c 57

unfoldable pub digits : ℕ → List ℕ → ℕ
digits n [] = n
digits n (c ∷ cs) = let more = digits (10 * n + (c - 48)) cs in if is_digit c then more else n

unfoldable pub skip_spaces : List ℕ → List ℕ
skip_spaces [] = []
skip_spaces (c ∷ cs) = let rest = skip_spaces cs in if is_space c then rest else c ∷ cs

-- The sign, true for a minus, and the magnitude.
unfoldable pub signed : List ℕ → Bool × ℕ
signed [] = (false, 0)
signed (c ∷ cs) =
    if c == b'-'
    then (true, digits 0 cs)
    else (if c == b'+' then (false, digits 0 cs) else (false, digits 0 (c ∷ cs)))

-- `beyond` is what the C library makes of a numeral that no int holds, which the C standard leaves
-- open.
unfoldable pub atoi : (String → ℤ) → String → ℤ
atoi beyond s =
    let (minus, n) = signed (skip_spaces (codes s)) in
    if n == 0
    then pos 0
    else if minus
    then (if leb n (2 ^ 31) then negsuc (n - 1) else beyond s)
    else (if ltb n (2 ^ 31) then pos n else beyond s)

-- Base 10. A minus sign negates the value modulo 2 ^ 32.
unfoldable pub strtoul : String → ℕ
strtoul s =
    let (minus, n) = signed (skip_spaces (codes s)) in
    if ltb n (2 ^ 32) then (if minus then (2 ^ 32 - n) % 2 ^ 32 else n) else 2 ^ 32 - 1
