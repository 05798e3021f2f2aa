-- ===== src/Workflow/Pairs.antt =====
-- Two tables row by row, and sums of weights over them.
use coleman.Base.{
  subst, ℕ, suc, ◌+◌, ◌≤◌, refl, sym, ap, ◌⊎◌, arith, ◌>>=◌, map_result, >>=-eq-ok, ok-injective,
  length, All, ◌≡◌, inl, inr, Bool, List, [], ◌∷◌, Bool-cases, Result, ok,
}
use coleman.Workflow.Records.{JobRecord, WorkflowError}
use coleman.Workflow.Rows.{update_row, weigh}

-- The same rows in the same places, each related to what it was.
abbrev pub Pairwise : (JobRecord → JobRecord → Type 0) → List JobRecord → List JobRecord → Type 0
Pairwise R [] [] = Unit
Pairwise R [] (y ∷ ys) = ⊥
Pairwise R (x ∷ xs) [] = ⊥
Pairwise R (x ∷ xs) (y ∷ ys) = R x y × Pairwise R xs ys

-- The row that a body reads is the one it saves; the others stay.
update_row-cases :
    (test : JobRecord → Bool) (body : JobRecord → Result WorkflowError JobRecord) (x : JobRecord)
    (xs ys : List JobRecord)
    → update_row test body (x ∷ xs) ≡ ok ys
    → ((y : JobRecord) × (body x ≡ ok y) × (ys ≡ y ∷ xs))
      ⊎ ((zs : List JobRecord) × (update_row test body xs ≡ ok zs) × (ys ≡ x ∷ zs))
unfolding update_row
update_row-cases test body x xs ys h = elim (Bool-cases (test x)) [
  | inl hit ↦
      let (y, e, q) = >>=-eq-ok (body x) (λ y. ok (y ∷ xs)) (rw (hit, update_row) at h) in
      inl (y, e, sym (ok-injective q))
  | inr miss ↦
      let (zs, e, q) =
        >>=-eq-ok (update_row test body xs) (λ zs. ok (x ∷ zs)) (rw (miss, update_row) at h) in
      inr (zs, e, sym (ok-injective q))
]

pub map_result-cases :
    (body : JobRecord → Result WorkflowError JobRecord) (x : JobRecord) (xs ys : List JobRecord)
    → map_result body (x ∷ xs) ≡ ok ys
    → (y : JobRecord) × (zs : List JobRecord) × (body x ≡ ok y)
      × (map_result body xs ≡ ok zs)
      × (ys ≡ y ∷ zs)
map_result-cases body x xs ys h =
    let (y, e, k) = >>=-eq-ok (body x) (λ y. map_result body xs >>= λ zs. ok (y ∷ zs)) h in
    let (zs, f, q) = >>=-eq-ok (map_result body xs) (λ zs. ok (y ∷ zs)) k in
    (y, zs, e, f, sym (ok-injective q))

module _ (R : JobRecord → JobRecord → Type 0) where
  pub Pairwise-refl : ((x : JobRecord) → R x x) → (xs : List JobRecord) → Pairwise R xs xs
  Pairwise-refl r [] = tt
  Pairwise-refl r (x ∷ xs) = (r x, Pairwise-refl r xs)

  pub update_row-Pairwise :
      (test : JobRecord → Bool) (body : JobRecord → Result WorkflowError JobRecord)
      → ((x : JobRecord) → R x x)
      → ((x y : JobRecord) → body x ≡ ok y → R x y)
      → (xs ys : List JobRecord) → update_row test body xs ≡ ok ys
      → Pairwise R xs ys
  unfolding update_row
  update_row-Pairwise test body r b [] ys h = cc
  update_row-Pairwise test body r b (x ∷ xs) ys h = elim (update_row-cases test body x xs ys h) [
    | inl (y, e, q) ↦ rw q (b x y e, Pairwise-refl r xs)
    | inr (zs, e, q) ↦ rw q (r x, update_row-Pairwise test body r b xs zs e)
  ]

  pub map_result-Pairwise :
      (body : JobRecord → Result WorkflowError JobRecord)
      → ((x y : JobRecord) → body x ≡ ok y → R x y)
      → (xs ys : List JobRecord) → map_result body xs ≡ ok ys
      → Pairwise R xs ys
  map_result-Pairwise body b [] ys h = subst (Pairwise R []) (ok-injective h) tt
  map_result-Pairwise body b (x ∷ xs) ys h =
      let (y, zs, e, f, q) = map_result-cases body x xs ys h in
      rw q (b x y e, map_result-Pairwise body b xs zs f)

  -- What each row does to its weight, the sum of the weights does.
  pub Pairwise-weigh :
      (v w : JobRecord → ℕ)
      → ((x y : JobRecord) → R x y → w y ≤ v x)
      → (xs ys : List JobRecord) → Pairwise R xs ys
      → weigh w ys ≤ weigh v xs
  Pairwise-weigh v w m [] [] p = omega arith
  Pairwise-weigh v w m [] (y ∷ ys) p = elim p [ ]
  Pairwise-weigh v w m (x ∷ xs) [] p = elim p [ ]
  Pairwise-weigh v w m (x ∷ xs) (y ∷ ys) p =
      omega (arith, m x y p.0, Pairwise-weigh v w m xs ys p.1)

  pub Pairwise-All :
      (P Q : JobRecord → Type 0)
      → ((x y : JobRecord) → R x y → P x → Q y)
      → (xs ys : List JobRecord) → Pairwise R xs ys
      → All P xs
      → All Q ys
  Pairwise-All P Q m [] [] p h = tt
  Pairwise-All P Q m [] (y ∷ ys) p h = elim p [ ]
  Pairwise-All P Q m (x ∷ xs) [] p h = elim p [ ]
  Pairwise-All P Q m (x ∷ xs) (y ∷ ys) p h = (m x y p.0 h.0, Pairwise-All P Q m xs ys p.1 h.1)

  pub Pairwise-length : (xs ys : List JobRecord) → Pairwise R xs ys → length ys ≡ length xs
  Pairwise-length [] [] p = refl
  Pairwise-length [] (y ∷ ys) p = elim p [ ]
  Pairwise-length (x ∷ xs) [] p = elim p [ ]
  Pairwise-length (x ∷ xs) (y ∷ ys) p = ap suc (Pairwise-length xs ys p.1)

-- One row may gain a weight of `n`.
pub update_row-weigh :
    (n : ℕ) (w : JobRecord → ℕ) (test : JobRecord → Bool)
    (body : JobRecord → Result WorkflowError JobRecord)
    → ((x y : JobRecord) → body x ≡ ok y → w y ≤ w x + n)
    → (xs ys : List JobRecord) → update_row test body xs ≡ ok ys
    → weigh w ys ≤ weigh w xs + n
unfolding update_row
update_row-weigh n w test body b [] ys h = cc
update_row-weigh n w test body b (x ∷ xs) ys h = elim (update_row-cases test body x xs ys h) [
  | inl (y, e, q) ↦ rw q (omega (arith, b x y e))
  | inr (zs, e, q) ↦ rw q (omega (arith, update_row-weigh n w test body b xs zs e))
]

pub Pairwise-mono :
    (R S : JobRecord → JobRecord → Type 0)
    → ((x y : JobRecord) → R x y → S x y)
    → (xs ys : List JobRecord) → Pairwise R xs ys
    → Pairwise S xs ys
Pairwise-mono R S m [] [] p = tt
Pairwise-mono R S m [] (y ∷ ys) p = elim p [ ]
Pairwise-mono R S m (x ∷ xs) [] p = elim p [ ]
Pairwise-mono R S m (x ∷ xs) (y ∷ ys) p = (m x y p.0, Pairwise-mono R S m xs ys p.1)

pub Pairwise-trans :
    (R S T : JobRecord → JobRecord → Type 0)
    → ((x y z : JobRecord) → R x y → S y z → T x z)
    → (xs ys zs : List JobRecord) → Pairwise R xs ys
    → Pairwise S ys zs
    → Pairwise T xs zs
Pairwise-trans R S T m [] [] [] p q = tt
Pairwise-trans R S T m [] [] (z ∷ zs) p q = elim q [ ]
Pairwise-trans R S T m [] (y ∷ ys) zs p q = elim p [ ]
Pairwise-trans R S T m (x ∷ xs) [] zs p q = elim p [ ]
Pairwise-trans R S T m (x ∷ xs) (y ∷ ys) [] p q = elim q [ ]
Pairwise-trans R S T m (x ∷ xs) (y ∷ ys) (z ∷ zs) p q =
    (m x y z p.0 q.0, Pairwise-trans R S T m xs ys zs p.1 q.1)
