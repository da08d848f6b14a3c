-- ===== src/Config/Document.antt =====
-- src/config.c: nodes of a document and `map_get` to `pos_val`.
use Prim.Native.String.{String}
use text.Mathlib.Text.{◌==◌ as same_text}
use montion_sense.Prelude.{ℕ, Bool, false, ◌||◌, Option, none, some, if◌then◌else◌}
use montion_sense.Prelude.Int.{ℤ}
use montion_sense.Config.{OsdPosition, top_left, top_right, bottom_left, bottom_right}
use montion_sense.Config.Numerals.{atoi, strtoul}

-- A node with the nodes that it names; no code reads the items of a sequence.
mutual
  pub data Node : Type 0 where
    scalar : String → Node
    sequence : Node
    mapping : Pairs → Node

  pub data Pairs : Type 0 where
    end : Pairs
    pair : Node → Node → Pairs → Pairs

abbrev pub is_key : Node → String → Bool
is_key (scalar s) key = same_text s key
is_key sequence key = false
is_key (mapping ps) key = false

unfoldable pub find_pair : Pairs → String → Option Node
find_pair end key = none
find_pair (pair k v ps) key = let rest = find_pair ps key in if is_key k key then some v else rest

unfoldable pub map_get : Node → String → Option Node
map_get (scalar s) key = none
map_get sequence key = none
map_get (mapping ps) key = find_pair ps key

abbrev pub text_of : Option Node → Option String
text_of none = none
text_of (some (scalar s)) = some s
text_of (some sequence) = none
text_of (some (mapping ps)) = none

unfoldable pub str_val : Node → String → Option String
str_val map key = text_of (map_get map key)

-- `s ? read(s) : def`
abbrev pub read_or : {A : Type 0} → (String → A) → Option String → A → A
read_or read none def = def
read_or read (some s) def = read s

unfoldable pub int_val : (String → ℤ) → Node → String → ℤ → ℤ
int_val beyond map key def = read_or (atoi beyond) (str_val map key) def

unfoldable pub u32_val : Node → String → ℕ → ℕ
u32_val map key def = read_or strtoul (str_val map key) def

unfoldable pub float_val : {Float : Type 0} → (String → Float) → Node → String → Float → Float
float_val atof map key def = read_or atof (str_val map key) def

unfoldable pub bool_val : Node → String → Bool → Bool
bool_val map key def =
    read_or (λ s. same_text s "true" || (same_text s "yes" || same_text s "1")) (str_val map key)
      def

unfoldable pub read_position : OsdPosition → String → OsdPosition
read_position def s =
    if same_text s "top-left"
    then top_left
    else (if same_text s "top-right"
        then top_right
        else (if same_text s "bottom-left"
            then bottom_left
            else (if same_text s "bottom-right" then bottom_right else def)))

unfoldable pub pos_val : Node → String → OsdPosition → OsdPosition
pos_val map key def = read_or (read_position def) (str_val map key) def
