-- ===== src/Base/Dicts.antt =====
-- A Python dict keyed by identities, in insertion order.
use Prim.Native.Nat.{ℕ, ◌+◌}
use mathlib.Core.Path.{◌≡◌, subst}
use mathlib.Core.Logic.{inl, inr}
use mathlib.Core.Bool.{Bool, true, false}
use mathlib.Core.List.{List, [], ◌∷◌, ◌++◌}
use mathlib.Core.Option.{Option, none, some}
use native.Mathlib.Omega.{arith}
use coleman.Base.Tests.{◌==◌, if◌then◌else◌, Bool-cases}

abbrev pub Dict {ℓ} : Type ℓ → Type ℓ
Dict V = List (ℕ × V)

module _ {ℓ} {V : Type ℓ} where
  -- `d.get(k)`
  abbrev pub lookup : ℕ → Dict V → Option V
  lookup k [] = none
  lookup k ((j, v) ∷ d) = if k == j then some v else lookup k d

  -- `k in d`
  abbrev pub has_key : ℕ → Dict V → Bool
  has_key k d = elim (lookup k d) [ none ↦ false | some _ ↦ true ]

  -- `d[k] = v`: an existing key keeps its place.
  abbrev pub insert : ℕ → V → Dict V → Dict V
  insert k v [] = (k, v) ∷ []
  insert k v (e ∷ d) = if k == e.0 then (k, v) ∷ d else e ∷ insert k v d

  pub lookup-insert :
      (k j : ℕ) (v : V) (d : Dict V)
      → lookup j (insert k v d) ≡ (if j == k then some v else lookup j d)
  lookup-insert k j v [] = ground arith
  lookup-insert k j v (e ∷ d) = ground (arith, lookup-insert k j v d)

  pub lookup-append_new :
      (k j : ℕ) (v : V) (d : Dict V)
      → lookup k d ≡ none
      → lookup j (d ++ (k, v) ∷ []) ≡ (if j == k then some v else lookup j d)
  lookup-append_new k j v [] h = ground arith
  lookup-append_new k j v (e ∷ d) h = ground (arith, lookup-append_new k j v d)

  -- The sum of a number over the values.
  abbrev pub total : (V → ℕ) → Dict V → ℕ
  total f [] = 0
  total f ((k, v) ∷ d) = f v + total f d

  pub total-insert :
      (f : V → ℕ) (k : ℕ) (v old : V) (d : Dict V)
      → lookup k d ≡ some old
      → total f (insert k v d) + f old ≡ total f d + f v
  total-insert f k v old [] e = cc
  total-insert f k v old ((j, b) ∷ d) e = ground (arith, total-insert f k v old d)

  pub total-insert_new :
      (f : V → ℕ) (k : ℕ) (v : V) (d : Dict V)
      → lookup k d ≡ none
      → total f (insert k v d) ≡ total f d + f v
  total-insert_new f k v [] e = omega arith
  total-insert_new f k v ((j, b) ∷ d) e = ground (arith, total-insert_new f k v d)

  -- A predicate that holds of every value.
  abbrev pub AllValues {κ} : (V → Type κ) → Dict V → Type κ
  AllValues P [] = Unit
  AllValues P ((k, v) ∷ d) = P v × AllValues P d

  pub lookup-AllValues {κ} :
      (P : V → Type κ) (k : ℕ) (v : V) (d : Dict V) → AllValues P d → lookup k d ≡ some v → P v
  lookup-AllValues P k v [] h e = cc
  lookup-AllValues P k v ((j, b) ∷ d) h e = elim (Bool-cases (k == j)) [
    | inl same ↦ let q : b ≡ v = ground arith in subst P q h.0
    | inr other ↦ lookup-AllValues P k v d h.1 (rw other at e)
  ]

  pub insert-AllValues {κ} :
      (P : V → Type κ) (k : ℕ) (v : V) (d : Dict V)
      → AllValues P d
      → P v
      → AllValues P (insert k v d)
  insert-AllValues P k v [] h p = (p, tt)
  insert-AllValues P k v ((j, b) ∷ d) h p = elim (Bool-cases (k == j)) [
    | inl same ↦ rw same (p, h.1)
    | inr other ↦ rw other (h.0, insert-AllValues P k v d h.1 p)
  ]
