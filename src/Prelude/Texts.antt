-- ===== src/Prelude/Texts.antt =====
-- Texts as lists of bytes.
use Prim.Native.Nat.{ℕ}
use mathlib.Core.Path.{◌≡◌, refl, ap₂}
use mathlib.Core.Bool.{Bool, true, false, ◌&&◌}
use mathlib.Core.List.{List, [], ◌∷◌, ◌++◌}
use native.Mathlib.Omega.{arith}
use montion_sense.Prelude.Tests.{◌==◌}

pub both_true : (a b : Bool) → (a && b) ≡ true → (a ≡ true) × (b ≡ true)
both_true true b h = (refl, h)
both_true false b h = absurd cc

-- `strcmp(a, b) == 0`
unfoldable pub same_bytes : List ℕ → List ℕ → Bool
same_bytes [] [] = true
same_bytes [] (d ∷ ds) = false
same_bytes (c ∷ cs) [] = false
same_bytes (c ∷ cs) (d ∷ ds) = c == d && same_bytes cs ds

pub same_bytes_refl : (p : List ℕ) → same_bytes p p ≡ true
unfolding same_bytes
same_bytes_refl [] = refl
same_bytes_refl (c ∷ cs) = ground (arith, same_bytes_refl cs)

pub same_bytes_append : (p xs : List ℕ) (x : ℕ) → same_bytes (p ++ x ∷ xs) p ≡ false
unfolding same_bytes
same_bytes_append [] xs x = refl
same_bytes_append (c ∷ cs) xs x = ground (arith, same_bytes_append cs xs x)

pub same_bytes→eq : (p q : List ℕ) → same_bytes p q ≡ true → p ≡ q
unfolding same_bytes
same_bytes→eq [] [] h = refl
same_bytes→eq [] (d ∷ ds) h = absurd cc
same_bytes→eq (c ∷ cs) [] h = absurd cc
same_bytes→eq (c ∷ cs) (d ∷ ds) h =
    let (first, rest) = both_true (c == d) (same_bytes cs ds) h in
    let e : c ≡ d = ground (arith, first) in ap₂ ◌∷◌ e (same_bytes→eq cs ds rest)
