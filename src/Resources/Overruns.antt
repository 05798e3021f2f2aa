-- ===== src/Resources/Overruns.antt =====
-- What contains a ledger: an execution that overruns its reservation, or a negative balance.
use coleman.Base.{Option, ◌≤ℤ◌}
use coleman.Base.{
  ℕ, ◌+◌, ◌<◌, ◌≡◌, refl, sym, ap, ◌∙◌, subst, ◌≢◌, ◌↔◌, ◌⊎◌, inl, inr, true, some, List, [], ◌∷◌,
  ◌++◌, arith, ltb, ltb→lt, Bool-cases, ok, pos, >>=-eq-ok, add_to_set, contains, lookup,
}
use coleman.Resources.Contracts.{ResourceEvent, ReserveEvent, OccupancyEvent}
use coleman.Resources.State.{Attempt, Replay}
use coleman.Resources.Replay.{
  declare_intent, charge_overhead, hold, reserve, occupy, occupy_checked, execute_reserve,
  execute_occupancy, dispatch, settle, apply,
}
use coleman.Resources.Balance.{reserve-inv, occupy_checked-inv, execution-inv, settled}
use coleman.Resources.Containment.{apply-contained, settle-inv}

-- The event charges an attempt more in total than was reserved for it.
abbrev pub Overruns : Replay → ResourceEvent → Type 0
Overruns r (ResourceEvent.occupancy e) =
    (a : Attempt) × (s : ReserveEvent) × (lookup e.execution_id r.attempts ≡ some a)
    × (a.reservation ≡ some s)
    × (s.amount.value < a.consumed + e.amount.value)
Overruns r (ResourceEvent.intent e) = ⊥
Overruns r (ResourceEvent.reserve e) = ⊥
Overruns r (ResourceEvent.overhead e) = ⊥

-- A replay with a recorded overrun is contained.
abbrev pub IsFlagged : Replay → Type 0
IsFlagged r = r.overruns ≢ [] → r.contained ≡ true

-- Either the event overruns and this is recorded, or neither.
abbrev Recorded : Replay → ResourceEvent → Replay → Type 0
Recorded r e d = (Overruns r e × (d.overruns ≢ [])) ⊎ ((¬ Overruns r e) × (d.overruns ≡ r.overruns))

some-injective {ℓ} : {A : Type ℓ} {x y : A} → ◌≡◌ {A = Option A} (some x) (some y) → x ≡ y
some-injective same = cc

add_to_set-ne : (k : ℕ) (ids : List ℕ) → add_to_set k ids ≢ []
add_to_set-ne k [] h = cc
add_to_set-ne k (x ∷ ids) h = elim (Bool-cases (contains k (x ∷ ids))) [
  | inl old ↦ let e : (◌≡◌ {A = List ℕ} (x ∷ ids) []) = rw old at h in cc
  | inr new ↦ let e : (◌≡◌ {A = List ℕ} (x ∷ (ids ++ k ∷ [])) []) = rw new at h in cc
]

occupy-Recorded :
    (r : Replay) (e : OccupancyEvent) (a : Attempt) (s : ReserveEvent)
    → lookup e.execution_id r.attempts ≡ some a
    → a.reservation ≡ some s
    → Recorded r (ResourceEvent.occupancy e) (occupy r e a s)
unfolding occupy
occupy-Recorded r e a s found reserved =
    elim (Bool-cases (ltb s.amount.value (a.consumed + e.amount.value))) [
      | inl over ↦ inl (
        (a, s, found, reserved, ltb→lt s.amount.value (a.consumed + e.amount.value) over),
        rw over (add_to_set-ne e.execution_id r.overruns),
      )
      | inr within ↦ inr (
        λ (b, t, found', reserved', over).
            let same : a ≡ b = some-injective (sym found ∙ found') in
            let same_reservation : s ≡ t =
              some-injective
                (sym reserved ∙ ap (λ (x : Attempt). x.reservation) same ∙ reserved') in
            let here : s.amount.value < a.consumed + e.amount.value =
              subst (λ (t : ReserveEvent). t.amount.value < a.consumed + e.amount.value)
                (sym same_reservation)
                (subst (λ (b : Attempt). t.amount.value < b.consumed + e.amount.value) (sym same)
                  over) in
            ground (arith, within, here),
        rw within refl,
      )
    ]

dispatch-Recorded :
    (r : Replay) (e : ResourceEvent) {d : Replay} → dispatch r e ≡ ok d → Recorded r e d
unfolding dispatch execute_reserve execute_occupancy
dispatch-Recorded r (ResourceEvent.intent e) h = inr (λ x. x, unfold declare_intent in ground arith)
dispatch-Recorded r (ResourceEvent.reserve e) h =
    let (a, _, _, _, done) = execution-inv r _ _ _ (reserve r e) h in
    let (same, _, _, _, _) = reserve-inv r e a done in inr (λ x. x, unfold hold in rw same refl)
dispatch-Recorded r (ResourceEvent.occupancy e) h =
    let (a, found, _, _, done) =
      execution-inv r _ _ _ (λ (a : Attempt). occupy_checked r e a a.reservation) h in
    let (s, reserved, same) = occupy_checked-inv r e a a.reservation done in
    subst (Recorded r (ResourceEvent.occupancy e)) (sym same)
      (occupy-Recorded r e a s found reserved)
dispatch-Recorded r (ResourceEvent.overhead e) h =
    inr (λ x. x, unfold charge_overhead in ground arith)

apply-Recorded :
    (r : Replay) (e : ResourceEvent) {r' : Replay} → apply r e ≡ ok r' → Recorded r e r'
unfolding apply
apply-Recorded r e h =
    let (d, done, end_) = >>=-eq-ok (dispatch r e) settle h in
    let recorded : Recorded r e (settled d) = dispatch-Recorded r e done in
    subst (Recorded r e) (sym (settle-inv d end_)) recorded

-- From a replay that is contained if an overrun is recorded in it, an accepted event leads to such
-- a replay, and this one is contained exactly when it was before, or the event is an occupancy
-- that charges its attempt more in total than was reserved for it, or the available balance is
-- negative.
pub apply-Overruns :
    (r : Replay) (e : ResourceEvent) {r' : Replay}
    → IsFlagged r
    → apply r e ≡ ok r'
    → IsFlagged r'
      × ((r'.contained ≡ true) ↔ ((r.contained ≡ true) ⊎ Overruns r e ⊎ ¬ (pos 0 ≤ℤ r'.available)))
apply-Overruns r e {r'} flagged h =
    let (forward, back) = apply-contained r e h in
    (
      λ over. back (inr (inl over)),
      (
        λ contained. elim (forward contained) [
          | inl before ↦ inl before
          | inr (inr negative) ↦ inr (inr negative)
          | inr (inl over) ↦ elim (apply-Recorded r e h) [
            | inl (overrun, _) ↦ inr (inl overrun)
            | inr (_, same) ↦ inl (flagged (λ none_left. over (same ∙ none_left)))
          ]
        ],
        λ why. elim why [
          | inl before ↦ back (inl before)
          | inr (inr negative) ↦ back (inr (inr negative))
          | inr (inl overrun) ↦ elim (apply-Recorded r e h) [
            | inl (_, over) ↦ back (inr (inl over))
            | inr (not_over, _) ↦ absurd (not_over overrun)
          ]
        ],
      ),
    )
