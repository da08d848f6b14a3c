-- ===== src/Storage/Writer/Ingest/Returns.antt =====
-- What a step of the writer of src/storage.c leaves, where undefined behaviour is `none`.
use montion_sense.Prelude.{Option, none, some}

module _ {S : Type 0} where
  -- The step returns, and leaves a state with `P`.
  abbrev pub Returns : (S → Type 0) → Option S → Type 0
  Returns P none = ⊥
  Returns P (some s) = P s

  -- A state that the step leaves has `P`.
  abbrev pub Leaves : (S → Type 0) → Option S → Type 0
  Leaves P none = Unit {0}
  Leaves P (some s) = P s

  pub Returns-Leaves :
      (P Q : S → Type 0) (o : Option S) → Returns P o → Leaves Q o → Returns (λ s. P s × Q s) o
  Returns-Leaves P Q none p q = p
  Returns-Leaves P Q (some s) p q = (p, q)
