-- ===== src/Sweep/Counts.antt =====
-- How many specifications a sweep gives.
use coleman.Base.{
  ◌⊎◌, inl, inr, not, Bool-cases, raise_if, ℕ, suc, ◌*◌, ◌≡◌, refl, sym, ap, ◌∙◌, subst, true,
  Option, none, some, List, [], ◌∷◌, map, arith, if◌then◌else◌, ok, >>=-eq-ok, ok-injective, length,
  length-append, is_empty, Dict, sort_by,
}
use coleman.Sweep.Data.{Json, SweepError}
use coleman.Sweep.Expansion.{
  Mode, SweepAxis, SweepSpec, prepend, extend, product, zip_cons, singles, zip_all, same_lengths,
  values, overrides, expand_axis, expand_axes, set_key, revalidate, override, build_specs,
  seed_spec, seed_specs, expand_sweep,
}

module _ {ℓ} {A : Type ℓ} where
  length-prepend : (x : A) (rows : List (List A)) → length (prepend x rows) ≡ length rows
  length-prepend x [] = refl
  length-prepend x (row ∷ rows) = ap suc (length-prepend x rows)

  length-extend :
      (xs : List A) (rows : List (List A)) → length (extend xs rows) ≡ length xs * length rows
  length-extend [] rows = omega arith
  length-extend (x ∷ xs) rows = omega (
    arith,
    length-append (prepend x rows) (extend xs rows),
    length-prepend x rows,
    length-extend xs rows,
  )

  -- The product of the lengths.
  abbrev pub combinations : List (List A) → ℕ
  combinations [] = 1
  combinations (xs ∷ lists) = length xs * combinations lists

  length-product : (lists : List (List A)) → length (product lists) ≡ combinations lists
  length-product [] = refl
  length-product (xs ∷ lists) =
      length-extend xs (product lists) ∙ ap (λ n. length xs * n) (length-product lists)

  -- The length of the first list.
  abbrev pub common_length : List (List A) → ℕ
  common_length [] = 0
  common_length (xs ∷ lists) = length xs

  length-singles : (xs : List A) → length (singles xs) ≡ length xs
  length-singles [] = refl
  length-singles (x ∷ xs) = ap suc (length-singles xs)

  length-zip_cons :
      (xs : List A) (rows : List (List A))
      → length xs ≡ length rows
      → length (zip_cons xs rows) ≡ length xs
  length-zip_cons [] rows h = refl
  length-zip_cons (x ∷ xs) [] h = omega (arith, h)
  length-zip_cons (x ∷ xs) (row ∷ rows) h = ap suc (length-zip_cons xs rows (omega (arith, h)))

  length-zip_all :
      (lists : List (List A))
      → same_lengths lists ≡ true
      → length (zip_all lists) ≡ common_length lists
  length-zip_all [] h = refl
  length-zip_all (xs ∷ []) h = length-singles xs
  length-zip_all (xs ∷ ys ∷ lists) h =
      let rest = length-zip_all (ys ∷ lists) (ground (arith, h)) in
      let same : length xs ≡ length ys = ground (arith, h) in
      length-zip_cons xs (zip_all (ys ∷ lists)) (same ∙ sym rest)

length-map : {A B : Type 0} (f : A → B) (xs : List A) → length (map f xs) ≡ length xs
length-map f [] = refl
length-map f (x ∷ xs) = ap suc (length-map f xs)

-- The number of overrides of an axis.
abbrev pub axis_count : SweepAxis → ℕ
axis_count axis =
    let lists = values (sort_by (λ e. e.0) axis.params) in
    elim axis.mode [ Mode.grid ↦ combinations lists | Mode.zip ↦ common_length lists ]

Mode-cases : (mode : Mode) → (mode ≡ Mode.grid) ⊎ (mode ≡ Mode.zip)
Mode-cases Mode.grid = inl refl
Mode-cases Mode.zip = inr refl

length-expand_axis :
    (axis : SweepAxis) (expansion : List (Dict Json))
    → expand_axis axis ≡ ok expansion
    → length expansion ≡ axis_count axis
unfolding expand_axis
length-expand_axis axis expansion h =
    let params = sort_by (λ e. e.0) axis.params in
    elim (Mode-cases axis.mode) [
      | inl is_grid ↦
          let rows = product (values params) in
          let q = ok-injective (rw (is_grid, expand_axis) at h) in
          rw is_grid (
            ap length (sym q) ∙ length-map (overrides params) rows ∙ length-product (values params))
      | inr is_zip ↦
          let (_, same, k) =
            >>=-eq-ok (raise_if (not (same_lengths (values params))) SweepError.unequal_lengths) _
              (rw (is_zip, expand_axis) at h) in
          let equal : same_lengths (values params) ≡ true = ground (arith, same) in
          rw is_zip (
            ap length (sym (ok-injective k))
            ∙ length-map (overrides params) (zip_all (values params))
            ∙ length-zip_all (values params) equal)
    ]

abbrev pub axes_count : List SweepAxis → ℕ
axes_count [] = 1
axes_count (axis ∷ axes) = axis_count axis * axes_count axes

expand_axes-combinations :
    (axes : List SweepAxis) (expansions : List (List (Dict Json)))
    → expand_axes axes ≡ ok expansions
    → combinations expansions ≡ axes_count axes
unfolding expand_axes
expand_axes-combinations [] expansions h = ap combinations (sym (ok-injective h))
expand_axes-combinations (axis ∷ axes) expansions h =
    let (first, e, k) = >>=-eq-ok (expand_axis axis) _ h in
    let (rest, f, q) = >>=-eq-ok (expand_axes axes) _ k in
    let one = length-expand_axis axis first e in
    let more = expand_axes-combinations axes rest f in
    subst (λ l. combinations l ≡ axes_count (axis ∷ axes)) (ok-injective q)
      (ap (λ n. n * combinations rest) one ∙ ap (λ n. axis_count axis * n) more)

-- The number of copies of each specification.
abbrev pub seeds_count : Option (List Json) → ℕ
seeds_count none = 1
seeds_count (some seeds) = length seeds

module _ {Spec : Type 0} (dump : Spec → Json) (validate : Json → Option Spec)
    (parts : ℕ → List ℕ × ℕ) where
  length-build_specs :
      (base : Spec) (combos : List (List (Dict Json))) (specs : List Spec)
      → build_specs dump validate parts base combos ≡ ok specs
      → length specs ≡ length combos
  unfolding build_specs
  length-build_specs base [] specs h = ap length (sym (ok-injective h))
  length-build_specs base (combo ∷ combos) specs h =
      let (tree, _, k) = >>=-eq-ok (override dump validate parts combo (dump base)) _ h in
      let (spec, _, k2) = >>=-eq-ok (revalidate dump validate parts tree) _ k in
      let (rest, f, q) = >>=-eq-ok (build_specs dump validate parts base combos) _ k2 in
      subst (λ l. length l ≡ suc (length combos)) (ok-injective q)
        (ap suc (length-build_specs base combos rest f))

  length-seed_spec :
      (seed_key : ℕ) (spec : Spec) (seeds : List Json) (specs : List Spec)
      → seed_spec dump validate parts seed_key spec seeds ≡ ok specs
      → length specs ≡ length seeds
  unfolding seed_spec
  length-seed_spec seed_key spec [] specs h = ap length (sym (ok-injective h))
  length-seed_spec seed_key spec (seed ∷ seeds) specs h =
      let (tree, _, k) = >>=-eq-ok (set_key dump validate parts seed_key seed (dump spec)) _ h in
      let (seeded, _, k2) = >>=-eq-ok (revalidate dump validate parts tree) _ k in
      let (rest, f, q) = >>=-eq-ok (seed_spec dump validate parts seed_key spec seeds) _ k2 in
      subst (λ l. length l ≡ suc (length seeds)) (ok-injective q)
        (ap suc (length-seed_spec seed_key spec seeds rest f))

  length-seed_specs :
      (seed_key : ℕ) (seeds : List Json) (specs seeded : List Spec)
      → seed_specs dump validate parts seed_key seeds specs ≡ ok seeded
      → length seeded ≡ length specs * length seeds
  unfolding seed_specs
  length-seed_specs seed_key seeds [] seeded h = ap length (sym (ok-injective h)) ∙ omega arith
  length-seed_specs seed_key seeds (spec ∷ specs) seeded h =
      let (first, e, k) = >>=-eq-ok (seed_spec dump validate parts seed_key spec seeds) _ h in
      let (rest, f, q) = >>=-eq-ok (seed_specs dump validate parts seed_key seeds specs) _ k in
      let one = length-seed_spec seed_key spec seeds first e in
      let more = length-seed_specs seed_key seeds specs rest f in
      subst (λ l. length l ≡ suc (length specs) * length seeds) (ok-injective q)
        (omega (arith, length-append first rest, one, more))

  length_seeded :
      (seed_key : ℕ) (made specs : List Spec) (seeds : Option (List Json)) (n : ℕ)
      → length made ≡ n
      → elim seeds [
        | none ↦ ok made
        | some list ↦ seed_specs dump validate parts seed_key list made
      ]
        ≡ ok specs
      → length specs ≡ n * seeds_count seeds
  length_seeded seed_key made specs none n count h =
      omega (arith, ap length (sym (ok-injective h)), count)
  length_seeded seed_key made specs (some list) n count h =
      length-seed_specs seed_key list made specs h ∙ ap (λ m. m * length list) count

  -- Whatever a specification is, a sweep that returns gives the product over its axes, times the
  -- number of seeds where seeds are given, of specifications: a grid axis counts the product of
  -- the lengths of its lists, a zip axis the length of its first list, or none without lists. A
  -- sweep without axes gives one, whatever its seeds are.
  pub length-expand_sweep :
      (seed_key : ℕ) (base : Spec) (sweep : SweepSpec) (specs : List Spec)
      → expand_sweep dump validate parts seed_key base sweep ≡ ok specs
      → length specs
        ≡ (if is_empty sweep.axes then 1 else axes_count sweep.axes * seeds_count sweep.seeds)
  unfolding expand_sweep
  length-expand_sweep seed_key base sweep specs h = elim (Bool-cases (is_empty sweep.axes)) [
    | inl empty ↦ rw empty (ap length (sym (ok-injective (rw (empty, expand_sweep) at h))))
    | inr some_axis ↦
        let (expansions, e, k) =
          >>=-eq-ok (expand_axes sweep.axes) _ (rw (some_axis, expand_sweep) at h) in
        let (made, f, k2) =
          >>=-eq-ok (build_specs dump validate parts base (product expansions)) _ k in
        let count : length made ≡ axes_count sweep.axes =
          length-build_specs base (product expansions) made f
          ∙ length-product expansions
          ∙ expand_axes-combinations sweep.axes expansions e in
        rw some_axis
          (length_seeded seed_key made specs sweep.seeds (axes_count sweep.axes) count k2)
  ]
