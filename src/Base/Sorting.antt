-- ===== src/Base/Sorting.antt =====
-- `sorted`: a stable insertion sort by a numeric key, and what it keeps.
use mathlib.Core.List.{Perm}
use mathlib.Core.List.Perm
use Prim.Native.Nat.{ℕ, suc, ◌≤◌}
use mathlib.Core.Path.{◌≡◌, refl, ap, ◌∙◌}
use mathlib.Core.Logic.{inl, inr}
use mathlib.Core.Bool.{◌||◌}
use mathlib.Core.List.{List, [], ◌∷◌}
use native.Mathlib.Omega.{arith}
use coleman.Base.Tests.{leb, ◌==◌, if◌then◌else◌, Bool-cases}
use coleman.Base.Lists.{length, All, contains}

module _ {ℓ} {A : Type ℓ} (key : A → ℕ) where
  -- Before the first element with a larger key, so that equal keys keep their order.
  unfoldable pub insert_sorted : A → List A → List A
  insert_sorted a [] = a ∷ []
  insert_sorted a (x ∷ xs) = if leb (key a) (key x) then a ∷ x ∷ xs else x ∷ insert_sorted a xs

  unfoldable pub sort_by : List A → List A
  unfolding insert_sorted
  sort_by [] = []
  sort_by (x ∷ xs) = insert_sorted x (sort_by xs)

  -- Ascending keys.
  abbrev pub IsSorted : List A → Type 0
  IsSorted [] = Unit
  IsSorted (x ∷ xs) = All (λ y. key x ≤ key y) xs × IsSorted xs

  insert_sorted-All :
      (P : A → Type 0) (a : A) (xs : List A) → P a → All P xs → All P (insert_sorted a xs)
  unfolding insert_sorted
  insert_sorted-All P a [] p h = (p, tt)
  insert_sorted-All P a (x ∷ xs) p h = elim (Bool-cases (leb (key a) (key x))) [
    | inl le ↦ rw le (p, h)
    | inr gt ↦ rw gt (h.0, insert_sorted-All P a xs p h.1)
  ]

  pub sort_by-All : (P : A → Type 0) (xs : List A) → All P xs → All P (sort_by xs)
  unfolding sort_by
  sort_by-All P [] h = tt
  sort_by-All P (x ∷ xs) h = insert_sorted-All P x (sort_by xs) h.0 (sort_by-All P xs h.1)

  All-insert_sorted :
      (P : A → Type 0) (a : A) (xs : List A) → All P (insert_sorted a xs) → P a × All P xs
  unfolding insert_sorted
  All-insert_sorted P a [] h = (h.0, tt)
  All-insert_sorted P a (x ∷ xs) h = elim (Bool-cases (leb (key a) (key x))) [
    | inl le ↦ let k = rw (le, insert_sorted) at h in (k.0, k.1)
    | inr gt ↦
        let k = rw (gt, insert_sorted) at h in
        let (first, others) = All-insert_sorted P a xs k.1 in (first, (k.0, others))
  ]

  -- What holds of every element in order holds of every element.
  pub All-sort_by : (P : A → Type 0) (xs : List A) → All P (sort_by xs) → All P xs
  unfolding sort_by
  All-sort_by P [] h = tt
  All-sort_by P (x ∷ xs) h =
      let (first, others) = All-insert_sorted P x (sort_by xs) h in (first, All-sort_by P xs others)

  All-le_trans :
      (a x : A) (xs : List A)
      → key a ≤ key x
      → All (λ y. key x ≤ key y) xs
      → All (λ y. key a ≤ key y) xs
  All-le_trans a x [] h k = tt
  All-le_trans a x (y ∷ xs) h k = (omega arith, All-le_trans a x xs h k.1)

  insert_sorted-IsSorted : (a : A) (xs : List A) → IsSorted xs → IsSorted (insert_sorted a xs)
  unfolding insert_sorted
  insert_sorted-IsSorted a [] h = (tt, tt)
  insert_sorted-IsSorted a (x ∷ xs) h = elim (Bool-cases (leb (key a) (key x))) [
    | inl le ↦ rw le ((ground arith, All-le_trans a x xs (ground arith) h.0), h)
    | inr gt ↦ rw gt (
      insert_sorted-All (λ y. key x ≤ key y) a xs (ground arith) h.0,
      insert_sorted-IsSorted a xs h.1,
    )
  ]

  pub sort_by-IsSorted : (xs : List A) → IsSorted (sort_by xs)
  unfolding sort_by
  sort_by-IsSorted [] = tt
  sort_by-IsSorted (x ∷ xs) = insert_sorted-IsSorted x (sort_by xs) (sort_by-IsSorted xs)

  insert_sorted-Perm : (a : A) (xs : List A) → Perm (insert_sorted a xs) (a ∷ xs)
  unfolding insert_sorted
  insert_sorted-Perm a [] = Perm.rfl
  insert_sorted-Perm a (x ∷ xs) = elim (Bool-cases (leb (key a) (key x))) [
    | inl le ↦ rw le Perm.rfl
    | inr gt ↦ rw gt (Perm.trans (Perm.cons x (insert_sorted-Perm a xs)) (Perm.swap a x xs))
  ]

  pub sort_by-Perm : (xs : List A) → Perm (sort_by xs) xs
  unfolding sort_by
  sort_by-Perm [] = Perm.rfl
  sort_by-Perm (x ∷ xs) =
      Perm.trans (insert_sorted-Perm x (sort_by xs)) (Perm.cons x (sort_by-Perm xs))

  length-insert_sorted : (a : A) (xs : List A) → length (insert_sorted a xs) ≡ suc (length xs)
  unfolding insert_sorted
  length-insert_sorted a [] = refl
  length-insert_sorted a (x ∷ xs) = ground (arith, length-insert_sorted a xs)

  pub length-sort_by : (xs : List A) → length (sort_by xs) ≡ length xs
  unfolding sort_by
  length-sort_by [] = refl
  length-sort_by (x ∷ xs) = length-insert_sorted x (sort_by xs) ∙ ap suc (length-sort_by xs)

abbrev pub id_key : ℕ → ℕ
id_key n = n

abbrev pub sort : List ℕ → List ℕ
sort = sort_by id_key

contains-insert_sorted :
    (k a : ℕ) (xs : List ℕ) → contains k (insert_sorted id_key a xs) ≡ ((k == a) || contains k xs)
unfolding insert_sorted
contains-insert_sorted k a [] = refl
contains-insert_sorted k a (x ∷ xs) = ground (arith, contains-insert_sorted k a xs)

pub contains-sort : (k : ℕ) (xs : List ℕ) → contains k (sort xs) ≡ contains k xs
unfolding sort_by
contains-sort k [] = refl
contains-sort k (x ∷ xs) =
    contains-insert_sorted k x (sort xs) ∙ ap (◌||◌ (k == x)) (contains-sort k xs)

insert_sorted_le : (a : ℕ) (xs : List ℕ) → All (λ y. a ≤ y) xs → insert_sorted id_key a xs ≡ a ∷ xs
unfolding insert_sorted
insert_sorted_le a [] h = refl
insert_sorted_le a (x ∷ xs) h = ground arith

-- A sorted list is left alone.
pub sort_of_IsSorted : (xs : List ℕ) → IsSorted id_key xs → sort xs ≡ xs
unfolding sort_by
sort_of_IsSorted [] h = refl
sort_of_IsSorted (x ∷ xs) h =
    ap (insert_sorted id_key x) (sort_of_IsSorted xs h.1) ∙ insert_sorted_le x xs h.0

pub sort_idem : (xs : List ℕ) → sort (sort xs) ≡ sort xs
sort_idem xs = sort_of_IsSorted (sort xs) (sort_by-IsSorted id_key xs)
