-- ===== src/Agent/Frames.antt =====
-- The operations on data frames that the agents use. A frame is its list of rows. The left join of
-- polars is a parameter: its rows are documented, their order is not.
use mathlib.Core.List.{Perm}
use coleman.Base.{ℕ, Option, none, some, List, [], ◌∷◌, ◌++◌, ◌==◌, if◌then◌else◌, Dict}

module _ {V : Type 0} where
  -- The values of a key, in order.
  abbrev pub matches : ℕ → Dict V → List V
  matches k [] = []
  matches k ((n, v) ∷ ps) = if k == n then v ∷ matches k ps else matches k ps

module _ {A V : Type 0} where
  abbrev pub pair_with : A → List V → List (A × Option V)
  pair_with a [] = []
  pair_with a (v ∷ vs) = (a, some v) ∷ pair_with a vs

  abbrev pub join_row : A → List V → List (A × Option V)
  join_row a [] = (a, none) ∷ []
  join_row a (v ∷ vs) = pair_with a (v ∷ vs)

  -- The rows of a left join: one for each match of a row, or the row alone where it has none.
  abbrev pub joined_rows : (A → ℕ) → List A → Dict V → List (A × Option V)
  joined_rows name [] ps = []
  joined_rows name (a ∷ rest) ps = join_row a (matches (name a) ps) ++ joined_rows name rest ps

-- `frame.join(other, on="Name", how="left")`
abbrev pub Join : Type 0 → Type 0 → Type 0
Join A V = List A → Dict V → List (A × Option V)

-- What is documented of a left join: its rows, in some order.
abbrev pub IsLeftJoin : {A V : Type 0} → (A → ℕ) → Join A V → Type 0
IsLeftJoin {A} {V} name join =
    (rows : List A) (ps : Dict V) → Perm (join rows ps) (joined_rows name rows ps)

module _ {A : Type 0} where
  -- The first row with a key.
  abbrev pub find_row : (A → ℕ) → ℕ → List A → Option A
  find_row name k [] = none
  find_row name k (a ∷ rest) = if k == name a then some a else find_row name k rest

-- Two columns side by side.
abbrev pub zip {ℓ} : {V : Type ℓ} → List ℕ → List V → Dict V
zip [] vs = []
zip (n ∷ ns) [] = []
zip (n ∷ ns) (v ∷ vs) = (n, v) ∷ zip ns vs
