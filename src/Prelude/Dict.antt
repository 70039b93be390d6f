-- ===== src/Prelude/Dict.antt =====
-- The `Map` of the language: entries in insertion order; writing a key that is there keeps its place.
use Prim.Native.Nat.{ℕ, ◌+◌, ◌≤◌}
use mathlib.Core.Path.{◌≡◌, refl}
use mathlib.Core.Bool.{Bool, true, false}
use mathlib.Core.Option.{Option, none, some}
use mathlib.Core.List.{List, [], ◌∷◌, map}
use native.Mathlib.Omega.{arith}
use anchr.Prelude.Tests.{if◌then◌else◌, Eq, ◌==◌, is_some}
use anchr.Prelude.Lists.{length, All, includes, Distinct}

abbrev pub Dict {ℓ κ} : Type ℓ → Type κ → Type (ℓ ⊔ κ)
Dict K V = List (K × V)

pub ==_refl {ℓ} : {K : Type ℓ} ⦃e : Eq K⦄ (k : K) → (k == k) ≡ true
==_refl ⦃e⦄ k = (e.beq_iff k k).1 refl

module _ {ℓ κ} {K : Type ℓ} {V : Type κ} ⦃e : Eq K⦄ where
  unfoldable pub lookup : K → Dict K V → Option V
  lookup key [] = none
  lookup key ((j, found) ∷ rest) = if j == key then some found else lookup key rest

  unfoldable pub insert : K → V → Dict K V → Dict K V
  insert key a [] = (key, a) ∷ []
  insert key a ((j, old) ∷ rest) =
      if j == key then (key, a) ∷ rest else (j, old) ∷ insert key a rest

  unfoldable pub delete : K → Dict K V → Dict K V
  delete k [] = []
  delete k ((j, w) ∷ m) = if j == k then delete k m else (j, w) ∷ delete k m

  abbrev pub has : K → Dict K V → Bool
  has k m = is_some (lookup k m)

  abbrev pub size : Dict K V → ℕ
  size m = length m

  abbrev pub values : Dict K V → List V
  values m = map (λ p. p.1) m

  pub lookup-insert :
      (key j : K) (a : V) (rest : Dict K V)
      → lookup j (insert key a rest) ≡ (if key == j then some a else lookup j rest)
  unfolding lookup insert
  lookup-insert key j a [] = refl
  lookup-insert key j a ((i, w) ∷ rest) =
      ground (arith, e.beq_iff key j, e.beq_iff i key, e.beq_iff i j, lookup-insert key j a rest)

  pub lookup-delete :
      (k j : K) (m : Dict K V) → lookup j (delete k m) ≡ (if k == j then none else lookup j m)
  unfolding lookup delete
  lookup-delete k j [] = ground arith
  lookup-delete k j ((i, w) ∷ m) =
      ground (arith, e.beq_iff k j, e.beq_iff i k, e.beq_iff i j, lookup-delete k j m)

  pub lookup-insert_self : (k : K) (v : V) (m : Dict K V) → lookup k (insert k v m) ≡ some v
  lookup-insert_self k v m = ground (arith, lookup-insert k k v m, ==_refl k)

  -- Every value of the map satisfies `P`.
  abbrev pub Values {μ} : (V → Type μ) → Dict K V → Type μ
  Values P m = All (λ p. P p.1) m

  pub insert-Values {μ} :
      (P : V → Type μ) (k : K) (v : V) (m : Dict K V) → P v → Values P m → Values P (insert k v m)
  unfolding insert
  insert-Values P k v [] hv h = (hv, tt)
  insert-Values P k v ((j, w) ∷ m) hv h = ground (arith, insert-Values P k v m hv h.1)

  pub delete-Values {μ} :
      (P : V → Type μ) (k : K) (m : Dict K V) → Values P m → Values P (delete k m)
  unfolding delete
  delete-Values P k [] h = tt
  delete-Values P k ((j, w) ∷ m) h = ground (arith, delete-Values P k m h.1)

  pub lookup-Values {μ} :
      (P : V → Type μ) (k : K) (m : Dict K V) {v : V} → Values P m → lookup k m ≡ some v → P v
  unfolding lookup
  lookup-Values P k [] h eq = ground arith
  lookup-Values P k ((j, w) ∷ m) {v} h eq = ground (arith, lookup-Values P k m {v = v} h.1)

  pub size-delete-le : (k : K) (m : Dict K V) → size (delete k m) ≤ size m
  unfolding delete
  size-delete-le k [] = omega arith
  size-delete-le k ((j, w) ∷ m) = ground (arith, size-delete-le k m)

  pub size-insert-le : (k : K) (v : V) (m : Dict K V) → size (insert k v m) ≤ size m + 1
  unfolding insert
  size-insert-le k v [] = omega arith
  size-insert-le k v ((j, w) ∷ m) = ground (arith, size-insert-le k v m)

  pub size-le-insert : (k : K) (v : V) (m : Dict K V) → size m ≤ size (insert k v m)
  unfolding insert
  size-le-insert k v [] = omega arith
  size-le-insert k v ((j, w) ∷ m) = ground (arith, size-le-insert k v m)

  abbrev pub keys : Dict K V → List K
  keys m = map (λ p. p.0) m

  includes-keys-insert :
      (k j : K) (v : V) (m : Dict K V)
      → (k == j) ≡ false
      → includes (keys m) j ≡ false
      → includes (keys (insert k v m)) j ≡ false
  unfolding insert includes
  includes-keys-insert k j v [] h f = ground arith
  includes-keys-insert k j v ((i, w) ∷ m) h f =
      ground (arith, includes-keys-insert k j v m, e.beq_iff i k, e.beq_iff k j, e.beq_iff i j)

  includes-keys-delete :
      (k j : K) (m : Dict K V)
      → includes (keys m) j ≡ false
      → includes (keys (delete k m)) j ≡ false
  unfolding delete includes
  includes-keys-delete k j [] f = refl
  includes-keys-delete k j ((i, w) ∷ m) f = ground (arith, includes-keys-delete k j m)

  -- A map has each key once, and its operations keep that.
  pub insert-Distinct :
      (k : K) (v : V) (m : Dict K V) → Distinct (keys m) → Distinct (keys (insert k v m))
  unfolding insert includes
  insert-Distinct k v [] h = (refl, tt)
  insert-Distinct k v ((i, w) ∷ m) h =
      ground (
        arith,
        insert-Distinct k v m h.1,
        includes-keys-insert k i v m,
        e.beq_iff i k,
        e.beq_iff k i,
      )

  pub delete-Distinct : (k : K) (m : Dict K V) → Distinct (keys m) → Distinct (keys (delete k m))
  unfolding delete
  delete-Distinct k [] h = tt
  delete-Distinct k ((i, w) ∷ m) h =
      ground (arith, delete-Distinct k m h.1, includes-keys-delete k i m)
