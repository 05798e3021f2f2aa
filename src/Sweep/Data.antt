-- ===== src/Sweep/Data.antt =====
-- The nested data that a sweep overrides, and `_set_nested` on a path of keys. A dict is its fields
-- in their order; a scalar, or a list, is a number that stands for it.
use coleman.Base.{ℕ, Option, none, some, List, [], ◌∷◌, ◌==◌, if◌then◌else◌, Result, ok, err, ◌>>=◌}

mutual
  pub data Json : Type 0 where
    scalar : ℕ → Json
    mapping : Fields → Json

  pub data Fields : Type 0 where
    nil : Fields
    field : ℕ → Json → Fields → Fields

pub data SweepError : Type 0 where
  not_a_mapping unequal_lengths invalid_spec : SweepError

-- `d.get(key)`
abbrev pub get_field : ℕ → Fields → Option Json
get_field k Fields.nil = none
get_field k (Fields.field j value rest) = if k == j then some value else get_field k rest

-- `d[key] = value`
abbrev pub put_field : ℕ → Json → Fields → Fields
put_field k value Fields.nil = Fields.field k value Fields.nil
put_field k value (Fields.field j old rest) =
    if k == j then Fields.field k value rest else Fields.field j old (put_field k value rest)

abbrev pub fields_of : Json → Result SweepError Fields
fields_of (Json.mapping fields) = ok fields
fields_of (Json.scalar _) = err SweepError.not_a_mapping

-- The container under a key: a new one where the key is missing.
abbrev pub container : ℕ → Fields → Json
container k fields = elim (get_field k fields) [
  | none ↦ Json.mapping Fields.nil
  | some value ↦ value
]

-- `_set_nested`, from the parts of the key: the last, and those before it.
unfoldable pub set_nested : List ℕ → ℕ → Json → Json → Result SweepError Json
set_nested [] last value data' = do
  fields ← fields_of data'
  ok (Json.mapping (put_field last value fields))
set_nested (part ∷ parts) last value data' = do
  fields ← fields_of data'
  below ← set_nested parts last value (container part fields)
  ok (Json.mapping (put_field part below fields))

-- What stands at a path.
abbrev pub get_nested : List ℕ → ℕ → Json → Option Json
get_nested parts last (Json.scalar _) = none
get_nested [] last (Json.mapping fields) = get_field last fields
get_nested (part ∷ parts) last (Json.mapping fields) = elim (get_field part fields) [
  | none ↦ none
  | some below ↦ get_nested parts last below
]
