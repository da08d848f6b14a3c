-- ===== src/Prelude/Words.antt =====
-- Machine words of C, and steps round an array.
use Prim.Native.Nat.{ℕ, suc, ◌+◌, ◌-◌, ◌%◌, ◌^◌, ◌<◌}
use mathlib.Core.Path.{◌≡◌}
use mathlib.Core.Logic.{◌≢◌}
use native.Mathlib.Nat.{mod-add-mod, mod-eq_of_lt, mod-eq-sub-mod}
use native.Mathlib.Decide.{dec_lt}
use native.Mathlib.Omega.{arith}

-- `size_t` addition: the RV1106 is a 32-bit ARM core, so `size_t` has 32 bits.
abbrev pub add_size : ℕ → ℕ → ℕ
add_size a b = (a + b) % 2 ^ 32

-- A step of one, then `k` more, is `k + 1` steps.
pub step-add : (h k cap : ℕ) → ((h + 1) % cap + k) % cap ≡ (h + suc k) % cap
step-add h k cap = rw mod-add-mod (rw (regroup h k))
  where
    regroup : (h k : ℕ) → h + 1 + k ≡ h + suc k
    regroup h k = omega arith

-- Fewer than `cap` steps round an array end at different places.
pub round-ne : (h j k cap : ℕ) → h < cap → j < k → k < cap → (h + j) % cap ≢ (h + k) % cap
round-ne h j k cap hh jk kc = elim (dec_lt (h + k) cap) [
  | yes p ↦ omega (arith, mod-eq_of_lt {n = h + k} {m = cap} p, mod-eq_of_lt {n = h + j} {m = cap})
  | no p ↦ elim (dec_lt (h + j) cap) [
    | yes q ↦ omega (
      arith,
      mod-eq_of_lt {n = h + j} {m = cap} q,
      mod-eq-sub-mod {n = h + k} {m = cap} (omega arith),
      mod-eq_of_lt {n = h + k - cap} {m = cap} (omega arith),
    )
    | no q ↦ omega (
      arith,
      mod-eq-sub-mod {n = h + j} {m = cap} (omega arith),
      mod-eq_of_lt {n = h + j - cap} {m = cap} (omega arith),
      mod-eq-sub-mod {n = h + k} {m = cap} (omega arith),
      mod-eq_of_lt {n = h + k - cap} {m = cap} (omega arith),
    )
  ]
]
