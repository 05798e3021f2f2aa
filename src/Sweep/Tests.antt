-- ===== src/Sweep/Tests.antt =====
-- A sweep of one key over two values, with two seeds.
use coleman.Base.{
  ℕ, ◌≡◌, refl, Option, some, List, [], ◌∷◌, ok, err, length, sort_by, insert_sorted,
}
use coleman.Sweep.Data.{Json, Fields, SweepError, set_nested, get_nested}
use coleman.Sweep.Expansion.{
  Mode, SweepSpec, expand_axis, expand_axes, set_key, set_keys, override, build_specs, seed_spec,
  seed_specs, expand_sweep,
}
use coleman.Sweep.Setting.{get_nested-set_nested, get_nested-set_nested_other}
use coleman.Sweep.Counts.{length-expand_sweep}

abbrev tree : Json
tree = Json.mapping (Fields.field 1 (Json.scalar 5) Fields.nil)

abbrev overridden : Json
overridden = Json.mapping (
    Fields.field 1 (Json.scalar 5)
      (Fields.field 2 (Json.mapping (Fields.field 3 (Json.scalar 8) Fields.nil)) Fields.nil))

set_nested_run : set_nested (2 ∷ []) 3 (Json.scalar 8) tree ≡ ok overridden
unfolding set_nested
set_nested_run = refl

get_nested-set_nested_example : get_nested (2 ∷ []) 3 overridden ≡ some (Json.scalar 8)
get_nested-set_nested_example =
    get_nested-set_nested (2 ∷ []) 3 (Json.scalar 8) tree overridden set_nested_run

get_nested-set_nested_other_example : get_nested [] 1 overridden ≡ get_nested [] 1 tree
get_nested-set_nested_other_example =
    get_nested-set_nested_other (2 ∷ []) 3 [] 1 (Json.scalar 8) tree overridden refl set_nested_run

-- A scalar in the way is refused.
set_nested_refused : set_nested (1 ∷ []) 3 (Json.scalar 8) tree ≡ err SweepError.not_a_mapping
unfolding set_nested
set_nested_refused = refl

abbrev dump : Json → Json
dump spec = spec

abbrev validate : Json → Option Json
validate spec = some spec

abbrev parts : ℕ → List ℕ × ℕ
parts key = ([], key)

abbrev sweep : SweepSpec
sweep = record {
  axes = record { mode = Mode.grid; params = (1, Json.scalar 6 ∷ Json.scalar 7 ∷ []) ∷ [] } ∷ [];
  seeds = some (Json.scalar 0 ∷ Json.scalar 1 ∷ []);
}

abbrev spec : ℕ → ℕ → Json
spec value seed =
    Json.mapping (Fields.field 1 (Json.scalar value) (Fields.field 9 (Json.scalar seed) Fields.nil))

abbrev expanded : List Json
expanded = spec 6 0 ∷ spec 6 1 ∷ spec 7 0 ∷ spec 7 1 ∷ []

expand_sweep_run : expand_sweep dump validate parts 9 tree sweep ≡ ok expanded
unfolding expand_sweep expand_axes expand_axis build_specs override set_keys set_key set_nested
    seed_specs seed_spec sort_by insert_sorted
expand_sweep_run = refl

length-expand_sweep_example : length expanded ≡ 4
unfolding sort_by
length-expand_sweep_example =
    length-expand_sweep dump validate parts 9 tree sweep expanded expand_sweep_run
