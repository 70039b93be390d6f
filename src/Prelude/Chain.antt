-- ===== src/Prelude/Chain.antt =====
-- Chains of early returns: a step that yields nothing ends the whole.
use mathlib.Core.Bool.{Bool, true, false}
use mathlib.Core.Option.{Option, none, some}

infixl 5 ◌>>=◌ ◌>>◌
abbrev pub ◌>>=◌ {ℓ κ} : {A : Type ℓ} {B : Type κ} → Option A → (A → Option B) → Option B
none >>= next = none
some x >>= next = next x

abbrev pub ◌>>◌ {ℓ} : {B : Type ℓ} → Option (Unit {0}) → Option B → Option B
first >> second = first >>= λ _. second

-- `if (!passes) return null;`.
abbrev pub require : Bool → Option (Unit {0})
require false = none
require true = some tt
