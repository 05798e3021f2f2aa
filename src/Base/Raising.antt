-- ===== src/Base/Raising.antt =====
-- Calls that may raise: a value, or the reason of the raise.
use mathlib.Core.Path.{◌≡◌, refl}
use mathlib.Core.Logic.{◌⊎◌, inl, inr}
use mathlib.Core.Bool.{Bool, true, false}
use mathlib.Core.List.{List, [], ◌∷◌}

pub data Result {ℓ κ} (E : Type ℓ) (A : Type κ) : Type (ℓ ⊔ κ) where
  ok : A → Result E A
  err : E → Result E A

module _ {ℓ} {E : Type ℓ} where
  infixl 5 ◌>>=◌ ◌>>◌
  -- The rest of the body runs on the value; a raise leaves it.
  abbrev pub ◌>>=◌ {κ μ} : {X : Type κ} {Y : Type μ} → Result E X → (X → Result E Y) → Result E Y
  ◌>>=◌ call body = elim call [ ok x ↦ body x | err why ↦ err why ]

  abbrev pub ◌>>◌ {μ} : {Y : Type μ} → Result E (Unit {0}) → Result E Y → Result E Y
  ◌>>◌ check body = check >>= (λ _. body)

  -- `if b: raise ValueError(why)`
  abbrev pub raise_if : Bool → E → Result E (Unit {0})
  raise_if true why = err why
  raise_if false why = ok tt

  pub Result-cases {κ} :
      {X : Type κ} (call : Result E X) → ((x : X) × (call ≡ ok x)) ⊎ ((why : E) × (call ≡ err why))
  Result-cases (ok x) = inl (x, refl)
  Result-cases (err why) = inr (why, refl)

  -- A body that ran to its end: its first call returned.
  pub >>=-eq-ok {κ μ} :
      {X : Type κ} {Y : Type μ} (call : Result E X) (body : X → Result E Y) {y : Y}
      → (call >>= body) ≡ ok y
      → (x : X) × (call ≡ ok x) × (body x ≡ ok y)
  >>=-eq-ok (ok x) body returned = (x, refl, returned)
  >>=-eq-ok (err why) body returned = cc

  pub ok-injective {κ} : {X : Type κ} {x y : X} → ◌≡◌ {A = Result E X} (ok x) (ok y) → x ≡ y
  ok-injective same = cc

  pub ok-ne-err {κ} : {X : Type κ} {x : X} {why : E} → ◌≡◌ {A = Result E X} (ok x) (err why) → ⊥
  ok-ne-err same = cc

  -- A validator of the elements of a list: the first raise leaves it.
  abbrev pub map_result {κ} : {X : Type κ} → (X → Result E X) → List X → Result E (List X)
  map_result check [] = ok []
  map_result check (x ∷ xs) = check x >>= λ y. map_result check xs >>= λ ys. ok (y ∷ ys)
