-- ===== src/Sweep/Setting.antt =====
-- What a nested override writes, and what it leaves.
use coleman.Base.{
  sym, ap, ◌∙◌, inl, inr, Bool-cases, ℕ, ◌≡◌, subst, Bool, true, false, not, some, List, [], ◌∷◌,
  arith, ◌==◌, if◌then◌else◌, ok, >>=-eq-ok, ok-injective,
}
use coleman.Sweep.Data.{
  Json, Fields, get_field, put_field, fields_of, container, set_nested, get_nested,
}

get_field-put_field :
    (k : ℕ) (value : Json) (fields : Fields) → get_field k (put_field k value fields) ≡ some value
get_field-put_field k value Fields.nil = ground arith
get_field-put_field k value (Fields.field j old rest) =
    ground (arith, get_field-put_field k value rest)

get_field-put_field_other :
    (k j : ℕ) (value : Json) (fields : Fields)
    → (k == j) ≡ false
    → get_field k (put_field j value fields) ≡ get_field k fields
get_field-put_field_other k j value Fields.nil h = ground (arith, h)
get_field-put_field_other k j value (Fields.field i old rest) h =
    ground (arith, h, get_field-put_field_other k j value rest h)

-- Under a key that is there, the path goes on in its value.
get_nested_below :
    (part : ℕ) (parts : List ℕ) (last : ℕ) (fields : Fields) (below : Json)
    → get_field part fields ≡ some below
    → get_nested (part ∷ parts) last (Json.mapping fields) ≡ get_nested parts last below
get_nested_below part parts last fields below h = ground (arith, h)

-- A path reads its first key only.
get_nested_same :
    (part : ℕ) (parts : List ℕ) (last : ℕ) (f g : Fields)
    → get_field part f ≡ get_field part g
    → get_nested (part ∷ parts) last (Json.mapping f)
      ≡ get_nested (part ∷ parts) last (Json.mapping g)
get_nested_same part parts last f g h = ground (arith, h)

fields_of_eq :
    (tree : Json) (fields : Fields) → fields_of tree ≡ ok fields → tree ≡ Json.mapping fields
fields_of_eq (Json.scalar n) fields h = cc
fields_of_eq (Json.mapping f) fields h = ap Json.mapping (ok-injective h)

-- Where a nested override returns, the path that it was given leads to the value that it was
-- given.
pub get_nested-set_nested :
    (parts : List ℕ) (last : ℕ) (value tree tree' : Json)
    → set_nested parts last value tree ≡ ok tree'
    → get_nested parts last tree' ≡ some value
unfolding set_nested
get_nested-set_nested [] last value tree tree' h =
    let (fields, e, q) = >>=-eq-ok (fields_of tree) _ h in
    subst (λ t. get_nested [] last t ≡ some value) (ok-injective q)
      (get_field-put_field last value fields)
get_nested-set_nested (part ∷ parts) last value tree tree' h =
    let (fields, e, k) = >>=-eq-ok (fields_of tree) _ h in
    let (below, f, q) = >>=-eq-ok (set_nested parts last value (container part fields)) _ k in
    let there = get_field-put_field part below fields in
    let ih = get_nested-set_nested parts last value (container part fields) below f in
    subst (λ t. get_nested (part ∷ parts) last t ≡ some value) (ok-injective q)
      (get_nested_below part parts last (put_field part below fields) below there ∙ ih)

-- Two paths of which neither leads through the other.
abbrev pub diverge : List ℕ → ℕ → List ℕ → ℕ → Bool
diverge [] last [] other = not (last == other)
diverge [] last (q ∷ qs) other = not (last == q)
diverge (p ∷ ps) last [] other = not (p == other)
diverge (p ∷ ps) last (q ∷ qs) other = if p == q then diverge ps last qs other else true

-- A value at the end of the path.
leaf_other :
    (last : ℕ) (others : List ℕ) (other : ℕ) (value : Json) (fields : Fields)
    → diverge [] last others other ≡ true
    → get_nested others other (Json.mapping (put_field last value fields))
      ≡ get_nested others other (Json.mapping fields)
leaf_other last [] other value fields d =
    get_field-put_field_other other last value fields (ground (arith, d))
leaf_other last (q ∷ qs) other value fields d =
    get_nested_same q qs other (put_field last value fields) fields
      (get_field-put_field_other q last value fields (ground (arith, d)))

-- A new container holds nothing.
container-get_nested :
    (part : ℕ) (parts : List ℕ) (last : ℕ) (fields : Fields)
    → get_nested parts last (container part fields)
      ≡ get_nested (part ∷ parts) last (Json.mapping fields)
container-get_nested part [] last fields = ground arith
container-get_nested part (q ∷ parts) last fields = ground arith

-- What a container of the path holds.
branch_other :
    (p : ℕ) (ps : List ℕ) (last : ℕ) (others : List ℕ) (other : ℕ) (fields : Fields) (below : Json)
    → diverge (p ∷ ps) last others other ≡ true
    → ((qs : List ℕ)
        → diverge ps last qs other ≡ true
        → get_nested qs other below ≡ get_nested qs other (container p fields))
    → get_nested others other (Json.mapping (put_field p below fields))
      ≡ get_nested others other (Json.mapping fields)
branch_other p ps last [] other fields below d ih =
    get_field-put_field_other other p below fields (ground (arith, d))
branch_other p ps last (q ∷ qs) other fields below d ih = elim (Bool-cases (p == q)) [
  | inl hit ↦
      let same : p ≡ q = ground (arith, hit) in
      let rest : diverge ps last qs other ≡ true = ground (arith, d, hit) in
      let there =
        get_nested_below p qs other (put_field p below fields) below
          (get_field-put_field p below fields) in
      let moved = there ∙ ih qs rest ∙ container-get_nested p qs other fields in
      subst
        (λ k.
          get_nested (k ∷ qs) other (Json.mapping (put_field p below fields))
          ≡ get_nested (k ∷ qs) other (Json.mapping fields))
        same moved
  | inr miss ↦
      get_nested_same q qs other (put_field p below fields) fields
        (get_field-put_field_other q p below fields (ground (arith, miss)))
]

-- Where a nested override returns, a path that diverges from the one that it was given leads where
-- it led before.
pub get_nested-set_nested_other :
    (parts : List ℕ) (last : ℕ) (others : List ℕ) (other : ℕ) (value tree tree' : Json)
    → diverge parts last others other ≡ true
    → set_nested parts last value tree ≡ ok tree'
    → get_nested others other tree' ≡ get_nested others other tree
unfolding set_nested
get_nested-set_nested_other [] last others other value tree tree' d h =
    let (fields, e, q) = >>=-eq-ok (fields_of tree) _ h in
    rw (sym (ok-injective q), fields_of_eq tree fields e)
      (leaf_other last others other value fields d)
get_nested-set_nested_other (p ∷ ps) last others other value tree tree' d h =
    let (fields, e, k) = >>=-eq-ok (fields_of tree) _ h in
    let (below, f, q) = >>=-eq-ok (set_nested ps last value (container p fields)) _ k in
    rw (sym (ok-injective q), fields_of_eq tree fields e)
      (branch_other p ps last others other fields below d (λ qs diverges.
        get_nested-set_nested_other ps last qs other value (container p fields) below diverges f))
