-- ===== src/Agent/Actions.antt =====
-- What `Agent.update_actions` does to the frame of actions, for every name.
use coleman.Base.{
  sort_by, to_set, difference, Bool, ◌&&◌, not, is_empty, sort, contains-sort, ℕ, ◌≡◌, refl, sym,
  ap, ◌∙◌, inl, inr, true, false, Option, none, some, List, [], ◌∷◌, ◌++◌, map, ◌==◌, if◌then◌else◌,
  Bool-cases, contains,
}
use mathlib.Core.List.{append-nil}
use coleman.Agent.Sets.{same_key, contains_same, contains-to_set, contains-difference}
use coleman.Agent.Frames.{find_row}
use coleman.Agent.State.{
  Arithmetic, ActionRow, Agent, name_of, names_of, drop_rows, new_row, update_actions,
}

module _ {V : Type 0} where
  -- The row of a name.
  abbrev pub row_of : ℕ → List (ActionRow V) → Option (ActionRow V)
  row_of k rows = find_row name_of k rows

  abbrev or_else : Option (ActionRow V) → Option (ActionRow V) → Option (ActionRow V)
  or_else none o = o
  or_else (some row) o = some row

  row_of-append :
      (k : ℕ) (xs ys : List (ActionRow V))
      → row_of k (xs ++ ys) ≡ or_else (row_of k xs) (row_of k ys)
  row_of-append k [] ys = refl
  row_of-append k (x ∷ xs) ys = elim (Bool-cases (k == x.name)) [
    | inl e ↦ rw e refl
    | inr e ↦ rw e (row_of-append k xs ys)
  ]

  row_of-drop_rows :
      (k : ℕ) (obsolete : List ℕ) (rows : List (ActionRow V))
      → row_of k (drop_rows obsolete rows) ≡ (if contains k obsolete then none else row_of k rows)
  row_of-drop_rows k obsolete [] = elim (Bool-cases (contains k obsolete)) [
    | inl e ↦ rw e refl
    | inr e ↦ rw e refl
  ]
  row_of-drop_rows k obsolete (x ∷ xs) = elim (Bool-cases (contains x.name obsolete)) [
    | inl e ↦ elim (Bool-cases (k == x.name)) [
      | inl s ↦ rw (e, row_of-drop_rows k obsolete xs, contains_same k x.name obsolete s ∙ e) refl
      | inr s ↦ rw (e, row_of-drop_rows k obsolete xs, s) refl
    ]
    | inr e ↦ elim (Bool-cases (k == x.name)) [
      | inl s ↦ rw (e, s, contains_same k x.name obsolete s ∙ e) refl
      | inr s ↦ rw (e, s, row_of-drop_rows k obsolete xs) refl
    ]
  ]

  row_of-contains :
      (k : ℕ) (rows : List (ActionRow V))
      → contains k (names_of rows) ≡ (elim (row_of k rows) [ none ↦ false | some _ ↦ true ])
  row_of-contains k [] = refl
  row_of-contains k (x ∷ xs) = elim (Bool-cases (k == x.name)) [
    | inl e ↦ rw e refl
    | inr e ↦ rw e (row_of-contains k xs)
  ]

  row_of-missing :
      (k : ℕ) (rows : List (ActionRow V))
      → contains k (names_of rows) ≡ false
      → row_of k rows ≡ none
  row_of-missing k [] h = refl
  row_of-missing k (x ∷ xs) h = elim (Bool-cases (k == x.name)) [
    | inl e ↦ absurd (true_ne_false (rw e at h))
    | inr e ↦ rw e (row_of-missing k xs (rw e at h))
  ]
    where
      true_ne_false : true ≡ false → ⊥
      true_ne_false e = cc

  -- The set of names is the names of the frame.
  abbrev pub IsConsistent : Agent V → Type 0
  IsConsistent a = (k : ℕ) → contains k a.action_names ≡ contains k (names_of a.actions)

module _ {V : Type 0} (num : Arithmetic V) where
  row_of-new_row :
      (k : ℕ) (ns : List ℕ)
      → row_of k (map (new_row num) ns) ≡ (if contains k ns then some (new_row num k) else none)
  row_of-new_row k [] = refl
  row_of-new_row k (n ∷ ns) = elim (Bool-cases (k == n)) [
    | inl e ↦ rw e (ap (λ m. some (new_row num m)) (sym (same_key k n e)))
    | inr e ↦ rw e (row_of-new_row k ns)
  ]

  -- The row of a name after the update to some available names.
  abbrev pub updated_row : ℕ → List ℕ → List (ActionRow V) → Option (ActionRow V)
  updated_row k available rows =
      if contains k available then or_else (row_of k rows) (some (new_row num k)) else none

  merged : List ℕ → Agent V → List (ActionRow V)
  merged available a =
      drop_rows (difference a.action_names available) a.actions
      ++ map (new_row num) (sort (difference (to_set available) a.action_names))

  merged-row_of :
      (available : List ℕ) (a : Agent V) (k : ℕ)
      → IsConsistent a
      → row_of k (merged available a) ≡ updated_row k available a.actions
  unfolding merged
  merged-row_of available a k consistent =
      row_of-append k (drop_rows (difference a.action_names available) a.actions) _
      ∙ rw
          (
            row_of-drop_rows k (difference a.action_names available) a.actions,
            row_of-new_row k (sort (difference (to_set available) a.action_names)),
            contains-sort k (difference (to_set available) a.action_names),
            contains-difference k a.action_names available,
            contains-difference k (to_set available) a.action_names,
            contains-to_set k available,
            consistent k,
            row_of-contains k a.actions,
          )
          (split (contains k available) (row_of k a.actions))
    where
      split :
          (b : Bool) (o : Option (ActionRow V))
          → or_else (if (elim o [ none ↦ false | some _ ↦ true ]) && not b then none else o) (
              if b && not (elim o [ none ↦ false | some _ ↦ true ])
              then some (new_row num k)
              else none)
            ≡ (if b then or_else o (some (new_row num k)) else none)
      split true none = refl
      split true (some row) = refl
      split false none = refl
      split false (some row) = refl

  nothing_to_do :
      (available : List ℕ) (a : Agent V)
      → (is_empty (difference a.action_names available)
          && is_empty (difference (to_set available) a.action_names))
        ≡ true
      → merged available a ≡ a.actions
  unfolding merged sort_by
  nothing_to_do available a h =
      none_left (difference a.action_names available) (difference (to_set available) a.action_names)
        h
    where
      keep_all : (rows : List (ActionRow V)) → drop_rows [] rows ≡ rows
      keep_all [] = refl
      keep_all (x ∷ xs) = ap (◌∷◌ x) (keep_all xs)

      none_left :
          (xs ys : List ℕ)
          → (is_empty xs && is_empty ys) ≡ true
          → drop_rows xs a.actions ++ map (new_row num) (sort ys) ≡ a.actions
      none_left [] [] h' = ap (λ rows. rows ++ []) (keep_all a.actions) ∙ append-nil a.actions
      none_left [] (y ∷ ys) h' = cc
      none_left (x ∷ xs) ys h' = cc

  -- For an agent whose set of names is the names of its frame: after `update_actions` it is so
  -- again, and the row of each name is the row it had when the name is available and had one, a
  -- row of zeros when it is available and is new, and absent when it is not available.
  pub update_actions-row_of :
      (available : List ℕ) (a : Agent V)
      → IsConsistent a
      → IsConsistent (update_actions num available a)
        × ((k : ℕ)
            → row_of k (update_actions num available a).actions ≡ updated_row k available a.actions)
  unfolding update_actions merged
  update_actions-row_of available a consistent =
      elim (Bool-cases (
        is_empty (difference a.action_names available)
        && is_empty (difference (to_set available) a.action_names))) [
          | inl e ↦ rw e (
            consistent,
            λ k.
                ap (row_of k) (sym (nothing_to_do available a e))
                ∙ merged-row_of available a k consistent,
          )
          | inr e ↦ rw e (
            λ k. contains-to_set k (names_of (merged available a)),
            λ k. merged-row_of available a k consistent,
          )
        ]
