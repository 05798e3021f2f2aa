-- ===== src/Sweep/Expansion.antt =====
-- The expansion of axes and of a sweep, in coleman/spec/sweep.py.
use coleman.Base.{
  ℕ, Bool, true, false, ◌&&◌, not, Option, none, some, List, [], ◌∷◌, ◌++◌, map, ◌==◌, Result, ok,
  err, ◌>>=◌, ◌>>◌, raise_if, length, is_empty, Dict, sort_by,
}
use coleman.Sweep.Data.{Json, SweepError, set_nested}

pub data Mode : Type 0 where
  grid zip : Mode

-- The keys with their values, in the order of the sorted keys.
pub record SweepAxis : Type 0 where
  pub mode : Mode
  pub params : Dict (List Json)

pub record SweepSpec : Type 0 where
  pub axes : List SweepAxis
  pub seeds : Option (List Json)

module _ {ℓ} {A : Type ℓ} where
  abbrev pub prepend : A → List (List A) → List (List A)
  prepend x [] = []
  prepend x (row ∷ rows) = (x ∷ row) ∷ prepend x rows

  abbrev pub extend : List A → List (List A) → List (List A)
  extend [] rows = []
  extend (x ∷ xs) rows = prepend x rows ++ extend xs rows

  -- `itertools.product`: the last list goes fastest.
  abbrev pub product : List (List A) → List (List A)
  product [] = [] ∷ []
  product (xs ∷ lists) = extend xs (product lists)

  abbrev pub zip_cons : List A → List (List A) → List (List A)
  zip_cons [] rows = []
  zip_cons (x ∷ xs) [] = []
  zip_cons (x ∷ xs) (row ∷ rows) = (x ∷ row) ∷ zip_cons xs rows

  abbrev pub singles : List A → List (List A)
  singles [] = []
  singles (x ∷ xs) = (x ∷ []) ∷ singles xs

  -- `zip` of lists of one length; of no list it is empty.
  abbrev pub zip_all : List (List A) → List (List A)
  zip_all [] = []
  zip_all (xs ∷ []) = singles xs
  zip_all (xs ∷ ys ∷ lists) = zip_cons xs (zip_all (ys ∷ lists))

  -- `len({len(v) for v in values}) <= 1`
  abbrev pub same_lengths : List (List A) → Bool
  same_lengths [] = true
  same_lengths (xs ∷ []) = true
  same_lengths (xs ∷ ys ∷ lists) = (length xs == length ys) && same_lengths (ys ∷ lists)

abbrev pub values : Dict (List Json) → List (List Json)
values [] = []
values ((k, vs) ∷ params) = vs ∷ values params

-- `dict(zip(sorted_keys, combo))`
abbrev pub overrides : Dict (List Json) → List Json → Dict Json
overrides [] combo = []
overrides ((k, vs) ∷ params) [] = []
overrides ((k, vs) ∷ params) (value ∷ combo) = (k, value) ∷ overrides params combo

-- `_expand_axis`
unfoldable pub expand_axis : SweepAxis → Result SweepError (List (Dict Json))
expand_axis axis =
    let params = sort_by (λ e. e.0) axis.params in
    elim axis.mode [
      | Mode.grid ↦ ok (map (overrides params) (product (values params)))
      | Mode.zip ↦
          raise_if (not (same_lengths (values params))) SweepError.unequal_lengths
          >> ok (map (overrides params) (zip_all (values params)))
    ]

unfoldable pub expand_axes : List SweepAxis → Result SweepError (List (List (Dict Json)))
expand_axes [] = ok []
expand_axes (axis ∷ axes) = do first ← expand_axis axis; rest ← expand_axes axes; ok (first ∷ rest)

-- What the expansion uses of a specification: its dump and its validation, and the parts of a
-- dotted key.
module _ {Spec : Type 0} (dump : Spec → Json) (validate : Json → Option Spec)
    (parts : ℕ → List ℕ × ℕ) where
  unfoldable pub set_key : ℕ → Json → Json → Result SweepError Json
  set_key key value base = set_nested (parts key).0 (parts key).1 value base

  abbrev pub revalidate : Json → Result SweepError Spec
  revalidate tree = elim (validate tree) [
    | none ↦ err SweepError.invalid_spec
    | some spec ↦ ok spec
  ]

  -- The overrides of a combination, one axis after the other.
  unfoldable pub set_keys : Dict Json → Json → Result SweepError Json
  set_keys [] tree = ok tree
  set_keys ((key, value) ∷ rest) tree = set_key key value tree >>= λ next. set_keys rest next

  unfoldable pub override : List (Dict Json) → Json → Result SweepError Json
  override [] tree = ok tree
  override (first ∷ rest) tree = set_keys first tree >>= λ next. override rest next

  unfoldable pub build_specs : Spec → List (List (Dict Json)) → Result SweepError (List Spec)
  build_specs base [] = ok []
  build_specs base (combo ∷ combos) = do
    tree ← override combo (dump base)
    spec ← revalidate tree
    specs ← build_specs base combos
    ok (spec ∷ specs)

  -- The replication of one specification over the seeds; `seed_key` is `execution.seed`.
  unfoldable pub seed_spec : ℕ → Spec → List Json → Result SweepError (List Spec)
  seed_spec seed_key spec [] = ok []
  seed_spec seed_key spec (seed ∷ seeds) = do
    tree ← set_key seed_key seed (dump spec)
    seeded ← revalidate tree
    rest ← seed_spec seed_key spec seeds
    ok (seeded ∷ rest)

  unfoldable pub seed_specs : ℕ → List Json → List Spec → Result SweepError (List Spec)
  seed_specs seed_key seeds [] = ok []
  seed_specs seed_key seeds (spec ∷ specs) = do
    first ← seed_spec seed_key spec seeds
    rest ← seed_specs seed_key seeds specs
    ok (first ++ rest)

  -- `expand_sweep`
  unfoldable pub expand_sweep : ℕ → Spec → SweepSpec → Result SweepError (List Spec)
  expand_sweep seed_key base sweep = elim (is_empty sweep.axes) [
    | true ↦ ok (base ∷ [])
    | false ↦ do
      expansions ← expand_axes sweep.axes
      specs ← build_specs base (product expansions)
      elim sweep.seeds [ none ↦ ok specs | some seeds ↦ seed_specs seed_key seeds specs ]
  ]
