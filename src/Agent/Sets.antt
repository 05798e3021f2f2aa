-- ===== src/Agent/Sets.antt =====
-- Membership in the sets of names that the agents keep.
use coleman.Base.{
  difference, to_set, ℕ, ◌≡◌, refl, sym, ap, ◌∙◌, inl, inr, Bool, true, false, ◌&&◌, ◌||◌, not,
  List, [], ◌∷◌, ◌++◌, arith, ◌==◌, Bool-cases, contains, add_to_set, union,
}

pub same_key : (a b : ℕ) → (a == b) ≡ true → a ≡ b
same_key a b h = ground arith

pub and_false : (b : Bool) → (b && false) ≡ false
and_false true = refl
and_false false = refl

or_false : (b : Bool) → (b || false) ≡ b
or_false true = refl
or_false false = refl

or_true : (b : Bool) → (b || true) ≡ true
or_true true = refl
or_true false = refl

or_assoc : (a b c : Bool) → ((a || b) || c) ≡ (a || (b || c))
or_assoc true b c = refl
or_assoc false b c = refl

or_comm : (a b : Bool) → (a || b) ≡ (b || a)
or_comm true b = sym (or_true b)
or_comm false b = sym (or_false b)

pub contains_same : (k x : ℕ) (xs : List ℕ) → (k == x) ≡ true → contains k xs ≡ contains x xs
contains_same k x xs s = ap (λ n. contains n xs) (same_key k x s)

pub contains-append :
    (k : ℕ) (xs ys : List ℕ) → contains k (xs ++ ys) ≡ (contains k xs || contains k ys)
contains-append k [] ys = refl
contains-append k (x ∷ xs) ys =
    ap (◌||◌ (k == x)) (contains-append k xs ys)
    ∙ sym (or_assoc (k == x) (contains k xs) (contains k ys))

contains-add_to_set :
    (k x : ℕ) (xs : List ℕ) → contains k (add_to_set x xs) ≡ ((k == x) || contains k xs)
contains-add_to_set k x xs = elim (Bool-cases (contains x xs)) [
  | inl e ↦ elim (Bool-cases (k == x)) [
    | inl s ↦ rw (e, s) (contains_same k x xs s ∙ e)
    | inr s ↦ rw (e, s) refl
  ]
  | inr e ↦ rw e (
      contains-append k xs (x ∷ [])
      ∙ ap (◌||◌ (contains k xs)) (or_false (k == x))
      ∙ or_comm (contains k xs) (k == x))
]

contains-union :
    (k : ℕ) (xs ys : List ℕ) → contains k (union xs ys) ≡ (contains k xs || contains k ys)
contains-union k xs [] = sym (or_false (contains k xs))
contains-union k xs (y ∷ ys) =
    contains-union k (add_to_set y xs) ys
    ∙ ap (λ b. b || contains k ys) (contains-add_to_set k y xs ∙ or_comm (k == y) (contains k xs))
    ∙ or_assoc (contains k xs) (k == y) (contains k ys)

pub contains-to_set : (k : ℕ) (xs : List ℕ) → contains k (to_set xs) ≡ contains k xs
contains-to_set k xs = contains-union k [] xs

pub contains-difference :
    (k : ℕ) (xs ys : List ℕ)
    → contains k (difference xs ys) ≡ (contains k xs && not (contains k ys))
contains-difference k [] ys = refl
contains-difference k (x ∷ xs) ys = elim (Bool-cases (contains x ys)) [
  | inl e ↦ elim (Bool-cases (k == x)) [
    | inl s ↦
        rw (e, contains-difference k xs ys, s, contains_same k x ys s ∙ e)
          (and_false (contains k xs))
    | inr s ↦ rw (e, contains-difference k xs ys, s) refl
  ]
  | inr e ↦ elim (Bool-cases (k == x)) [
    | inl s ↦ rw (e, s, contains_same k x ys s ∙ e) refl
    | inr s ↦ rw (e, s, contains-difference k xs ys) refl
  ]
]
