-- ===== src/Resources/Selecting/Prefix.antt =====
-- What `select_resources` promises: a prefix of the ranking that fits, and that cannot be extended.
use coleman.Base.{
  ℕ, ◌+◌, ◌≤◌, ◌<◌, ltb, ◌≡◌, refl, sym, ap, ◌∙◌, inl, inr, none, some, List, [], ◌∷◌, ◌++◌, Dict,
  lookup, Result, ok, arith, Option-cases, Bool-cases,
}
use mathlib.Core.List.{append-nil, append_assoc}
use coleman.Resources.Selecting.{SelectError, fill}

-- The estimated cost of some tests.
abbrev pub cost_of : Dict ℕ → List ℕ → ℕ
cost_of costs [] = 0
cost_of costs (t ∷ ts) = (elim (lookup t costs) [ none ↦ 0 | some c ↦ c ]) + cost_of costs ts

-- Nothing is left, or the next test does not fit.
abbrev pub CannotExtend : ℕ → Dict ℕ → ℕ → List ℕ → Type 0
CannotExtend capacity costs occupied [] = Unit
CannotExtend capacity costs occupied (t ∷ ts) =
    (c : ℕ) × (lookup t costs ≡ some c) × (capacity < occupied + c)

pair-eq :
    {a s : List ℕ} {b o : ℕ}
    → ◌≡◌ {A = Result SelectError (List ℕ × ℕ)} (ok (a, b)) (ok (s, o))
    → (s ≡ a) × (o ≡ b)
pair-eq h = (cc, cc)

-- The loop takes a prefix of what is left, accounts for it, and stops at the first test that does
-- not fit.
pub fill_lem :
    (capacity : ℕ) (costs : Dict ℕ) (ts selected : List ℕ) (occupied : ℕ) (s : List ℕ) (o : ℕ)
    → occupied ≤ capacity
    → fill capacity costs ts selected occupied ≡ ok (s, o)
    → (taken left : List ℕ) × (taken ++ left ≡ ts)
      × (s ≡ selected ++ taken)
      × (o ≡ occupied + cost_of costs taken)
      × (o ≤ capacity)
      × CannotExtend capacity costs o left
unfolding fill
fill_lem capacity costs [] selected occupied s o fits h =
    let (same, units) = pair-eq h in
    ([], [], refl, same ∙ sym (append-nil selected), omega arith, omega arith, tt)
fill_lem capacity costs (t ∷ ts) selected occupied s o fits h =
    elim (Option-cases (lookup t costs)) [
      | inl missing ↦ absurd (ground arith)
      | inr (c, found) ↦ elim (Bool-cases (ltb capacity (occupied + c))) [
        | inl full ↦
            let (same, units) = pair-eq (rw (found, fill, full) at h) in
            (
              [],
              t ∷ ts,
              refl,
              same ∙ sym (append-nil selected),
              omega arith,
              omega arith,
              (c, found, ground arith),
            )
        | inr room ↦
            let next = rw (found, fill, room) at h in
            let (taken, left, split, same, units, under, stop) =
              fill_lem capacity costs ts (selected ++ t ∷ []) (occupied + c) s o (ground arith)
                next in
            (
              t ∷ taken,
              left,
              ap (◌∷◌ t) split,
              same ∙ append_assoc selected (t ∷ []) taken,
              rw found (omega arith),
              under,
              stop,
            )
      ]
    ]
