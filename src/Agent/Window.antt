-- ===== src/Agent/Window.antt =====
-- `update_history` of the sliding-window agents.
use coleman.Base.{
  ℕ, ◌+◌, ◌-◌, ◌≤◌, ◌<◌, ◌≡◌, refl, ap, ◌∙◌, inl, inr, List, [], ◌∷◌, ◌++◌, map, arith, ltb, ltb→lt,
  Bool-cases, All, All-append,
}
use coleman.Agent.State.{
  Arithmetic, ActionRow, HistoryRow, WindowAgent, stamp, latest_time, keep_after, update_history,
}

module _ {V : Type 0} (num : Arithmetic V) where
  -- Every row was stamped after the start and not in the future.
  abbrev pub IsStamped : ℕ → List (HistoryRow V) → Type 0
  IsStamped now rows = All (λ row. (1 ≤ row.taken_at) × (row.taken_at ≤ now)) rows

  stamp-IsStamped :
      (now : ℕ) (rows : List (ActionRow V)) → 1 ≤ now → IsStamped now (map (stamp num now) rows)
  stamp-IsStamped now [] h = tt
  stamp-IsStamped now (row ∷ rows) h = ((h, omega arith), stamp-IsStamped now rows h)

  latest_time-bound :
      (now : ℕ) (rows : List (HistoryRow V)) → IsStamped now rows → latest_time num rows ≤ now
  latest_time-bound now [] h = omega arith
  latest_time-bound now (row ∷ rows) h =
      let rest = latest_time-bound now rows h.1 in let here = h.0.1 in omega arith

  keep_after-append :
      (least : ℕ) (xs ys : List (HistoryRow V))
      → keep_after num least (xs ++ ys) ≡ keep_after num least xs ++ keep_after num least ys
  keep_after-append least [] ys = refl
  keep_after-append least (x ∷ xs) ys = elim (Bool-cases (ltb least x.taken_at)) [
    | inl e ↦ rw e (ap (◌∷◌ x) (keep_after-append least xs ys))
    | inr e ↦ rw e (keep_after-append least xs ys)
  ]

  keep_after-new :
      (least now : ℕ) (rows : List (ActionRow V))
      → least < now
      → keep_after num least (map (stamp num now) rows) ≡ map (stamp num now) rows
  keep_after-new least now [] h = refl
  keep_after-new least now (row ∷ rows) h = elim (Bool-cases (ltb least now)) [
    | inl e ↦ rw e (ap (◌∷◌ (stamp num now row)) (keep_after-new least now rows h))
    | inr e ↦ absurd (ground arith)
  ]

  -- Every row is within the window that ends at the latest one.
  abbrev pub IsWithin : ℕ → ℕ → List (HistoryRow V) → Type 0
  IsWithin latest window rows =
      All (λ row. (latest < row.taken_at + window) × (1 ≤ row.taken_at)) rows

  keep_after-IsWithin :
      (latest window now : ℕ) (rows : List (HistoryRow V))
      → window < latest
      → IsStamped now rows
      → IsWithin latest window (keep_after num (latest - window) rows)
  keep_after-IsWithin latest window now [] h k = tt
  keep_after-IsWithin latest window now (row ∷ rows) h k =
      elim (Bool-cases (ltb (latest - window) row.taken_at)) [
        | inl e ↦
            let inside = ltb→lt (latest - window) row.taken_at e in
            rw e ((omega arith, k.0.0), keep_after-IsWithin latest window now rows h k.1)
        | inr e ↦ rw e (keep_after-IsWithin latest window now rows h k.1)
      ]

  all-IsWithin :
      (latest window now : ℕ) (rows : List (HistoryRow V))
      → latest ≤ window
      → IsStamped now rows
      → IsWithin latest window rows
  all-IsWithin latest window now [] h k = tt
  all-IsWithin latest window now (row ∷ rows) h k =
      let after = k.0.0 in ((omega arith, k.0.0), all-IsWithin latest window now rows h k.1)

  -- The history with a row for each action of now.
  abbrev pub grown : WindowAgent V → List (HistoryRow V)
  grown w = w.history ++ map (stamp num w.base.t) w.base.actions

  -- For an agent that has taken a step, with a window of at least one step and a history stamped
  -- from one to now: after `update_history` every row of the history is later than the latest one
  -- less the window, and the history ends with the rows of all current actions.
  pub update_history-IsWithin :
      (w : WindowAgent V)
      → 1 ≤ w.base.t
      → 1 ≤ w.window_size
      → IsStamped w.base.t w.history
      → IsWithin (latest_time num (grown w)) w.window_size (update_history num w).history
        × ((kept : List (HistoryRow V)) × ((update_history num w).history
              ≡ kept ++ map (stamp num w.base.t) w.base.actions))
  unfolding update_history
  update_history-IsWithin w started sized stamped =
      let new = map (stamp num w.base.t) w.base.actions in
      let stamped' =
        All-append (λ (row : HistoryRow V). (1 ≤ row.taken_at) × (row.taken_at ≤ w.base.t))
          w.history new stamped (stamp-IsStamped w.base.t w.base.actions started) in
      let latest = latest_time num (grown w) in
      let bound = latest_time-bound w.base.t (w.history ++ new) stamped' in
      elim (Bool-cases (ltb w.window_size latest)) [
        | inl e ↦ rw e (
          keep_after-IsWithin latest w.window_size w.base.t (w.history ++ new)
              (ltb→lt w.window_size latest e) stamped',
          (
            keep_after num (latest - w.window_size) w.history,
            keep_after-append (latest - w.window_size) w.history new
                ∙ ap (◌++◌ (keep_after num (latest - w.window_size) w.history))
                    (keep_after-new (latest - w.window_size) w.base.t w.base.actions (omega arith)),
          ),
        )
        | inr e ↦ rw e (
          all-IsWithin latest w.window_size w.base.t (w.history ++ new) (ground arith) stamped',
          (w.history, refl),
        )
      ]
