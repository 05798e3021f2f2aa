-- ===== src/Workflow/History.antt =====
-- Rows are never lost: what a later workspace remembers of an earlier one.
use coleman.Base.{
  ◌≤◌, sym, length, ℕ, none, ◌==◌, ok, ◌≡◌, refl, ◌∙◌, subst, inl, inr, Bool, true, false, some,
  List, [], ◌∷◌, ◌++◌, arith, Bool-cases,
}
use coleman.Workflow.Records.{ExecutePlan, JobRecord, Store, Host}
use coleman.Workflow.Rows.{find_row, load_jobs}
use coleman.Workflow.Service.{admit, new_job}
use coleman.Workflow.Steps.{Step, Reach}
use coleman.Workflow.Evolution.{Evolves, Evolves-refl, Evolves-trans, is_final}
use coleman.Workflow.Pairs.{Pairwise}
use coleman.Workflow.Validity.{IsValid, Grows}
use coleman.Workflow.Requests.{asks, admit-cases}
use coleman.Workflow.Effects.{Effect, Step_effect}
use coleman.Workflow.Safety.{Step-IsValid, Reach-IsValid, save_plan-cases}

-- The rows of the first table, as they are now, begin the second.
abbrev pub Remembers : List JobRecord → List JobRecord → Type 0
Remembers [] ys = Unit
Remembers (x ∷ xs) [] = ⊥
Remembers (x ∷ xs) (y ∷ ys) = Evolves x y × Remembers xs ys

Remembers-append : (xs ys : List JobRecord) → Remembers xs (xs ++ ys)
Remembers-append [] ys = tt
Remembers-append (x ∷ xs) ys = (Evolves-refl x, Remembers-append xs ys)

Remembers-refl : (xs : List JobRecord) → Remembers xs xs
Remembers-refl [] = tt
Remembers-refl (x ∷ xs) = (Evolves-refl x, Remembers-refl xs)

Pairwise-Remembers : (xs ys : List JobRecord) → Pairwise Grows xs ys → Remembers xs ys
Pairwise-Remembers [] ys p = tt
Pairwise-Remembers (x ∷ xs) [] p = elim p [ ]
Pairwise-Remembers (x ∷ xs) (y ∷ ys) p = (p.0.evolves, Pairwise-Remembers xs ys p.1)

Remembers-trans : (xs ys zs : List JobRecord) → Remembers xs ys → Remembers ys zs → Remembers xs zs
Remembers-trans [] ys zs p q = tt
Remembers-trans (x ∷ xs) [] zs p q = elim p [ ]
Remembers-trans (x ∷ xs) (y ∷ ys) [] p q = elim q [ ]
Remembers-trans (x ∷ xs) (y ∷ ys) (z ∷ zs) p q =
    (Evolves-trans p.0 q.0, Remembers-trans xs ys zs p.1 q.1)

Step-Remembers : {s t : Store} → Step s t → IsValid s → Remembers s.jobs t.jobs
Step-Remembers {s} {t} step v = elim (Step_effect step v) [
  | Effect.saved plan h ↦ elim (save_plan-cases plan s t h) [
    | inl same ↦ rw same (Remembers-refl s.jobs)
    | inr more ↦ rw more (Remembers-refl s.jobs)
  ]
  | Effect.repeated same ↦ rw same (Remembers-refl s.jobs)
  | Effect.entered job plan a ↦ rw a.store (Remembers-append s.jobs (job ∷ []))
  | Effect.moved m ↦ Pairwise-Remembers s.jobs t.jobs m.rows
]

pub Reach-Remembers : {s t : Store} → Reach s t → IsValid s → Remembers s.jobs t.jobs
Reach-Remembers {s} Reach.here v = Remembers-refl s.jobs
Reach-Remembers {s} (Reach.next {t} {u} r step) v =
    Remembers-trans s.jobs t.jobs u.jobs (Reach-Remembers r v)
      (Step-Remembers step (Reach-IsValid r v))

-- A row that the identities find is found again, as it is now.
pub Remembers-find_row :
    (test : JobRecord → Bool)
    → ((x y : JobRecord) → Evolves x y → test y ≡ test x)
    → (xs ys : List JobRecord) (x : JobRecord) → Remembers xs ys
    → find_row test xs ≡ some x
    → (y : JobRecord) × (find_row test ys ≡ some y) × Evolves x y
Remembers-find_row test same [] ys x p h = cc
Remembers-find_row test same (w ∷ xs) [] x p h = elim p [ ]
Remembers-find_row test same (w ∷ xs) (y ∷ ys) x p h = elim (Bool-cases (test w)) [
  | inl hit ↦
      let now : test y ≡ true = same w y p.0 ∙ hit in
      let it : w ≡ x = ground (arith, h, hit) in (y, rw now refl, subst (λ j. Evolves j y) it p.0)
  | inr miss ↦
      let now : test y ≡ false = same w y p.0 ∙ miss in
      let (z, found, e) = Remembers-find_row test same xs ys x p.1 (rw miss at h) in
      (z, rw now found, e)
]

find_row-append :
    (test : JobRecord → Bool) (xs : List JobRecord) (x : JobRecord)
    → find_row test xs ≡ none
    → test x ≡ true
    → find_row test (xs ++ x ∷ []) ≡ some x
find_row-append test [] x h t = rw t refl
find_row-append test (w ∷ xs) x h t = ground (arith, find_row-append test xs x)

-- The row that `execute` returned the identity of.
execute-find_row :
    (owner : ℕ) (host : Host) (request : ExecutePlan) (s s' : Store) (job_id : ℕ)
    → admit owner host request s ≡ ok (s', job_id)
    → (job : JobRecord) × (find_row (asks owner request) s'.jobs ≡ some job)
      × (job.request_digest ≡ host.fingerprint request)
      × (job_id ≡ job.job_id)
execute-find_row owner host request s s' job_id h =
    elim (admit-cases owner host request s s' job_id h) [
      | inl r ↦ (r.existing, rw r.store r.found, r.same_digest, r.same_id)
      | inr e ↦
          let job = new_job owner host request e.plan in
          let mine : asks owner request job ≡ true = ground arith in
          (
            job,
            rw e.admitted.store (find_row-append (asks owner request) s.jobs job e.missing mine),
            refl,
            e.same_id,
          )
    ]

-- A request whose row is there gives its identity, and changes nothing.
admit-find_row :
    (owner : ℕ) (host : Host) (request : ExecutePlan) (s : Store) (job : JobRecord)
    → length s.jobs ≤ s.policy.max_jobs
    → find_row (asks owner request) s.jobs ≡ some job
    → job.request_digest ≡ host.fingerprint request
    → admit owner host request s ≡ ok (s, job.job_id)
unfolding admit load_jobs
admit-find_row owner host request s job few found same = ground arith

-- A request that `execute` admitted into a valid workspace, repeated by the same owner after any
-- transactions and on any host that gives it the same fingerprint, returns the same job and
-- changes nothing.
pub admit-Reach :
    (owner : ℕ) (host later : Host) (request : ExecutePlan) (s s' t : Store) (job_id : ℕ)
    → IsValid s
    → admit owner host request s ≡ ok (s', job_id)
    → Reach s' t
    → later.fingerprint request ≡ host.fingerprint request
    → admit owner later request t ≡ ok (t, job_id)
admit-Reach owner host later request s s' t job_id v h r f =
    let v' = Step-IsValid (Step.admits owner host request job_id h) v in
    let vt = Reach-IsValid r v' in
    let (job, found, digest, id) = execute-find_row owner host request s s' job_id h in
    let (now, again, e) =
      Remembers-find_row (asks owner request) (λ x y k. rw (k.same_owner, k.same_request) refl)
        s'.jobs t.jobs job (Reach-Remembers r v') found in
    let retried =
      admit-find_row owner later request t now vt.slots again (e.same_digest ∙ digest ∙ sym f) in
    subst (λ i. admit owner later request t ≡ ok (t, i)) (e.same_id ∙ sym id) retried

-- A completed or expired row of a valid workspace is, after any transactions, still found by its
-- identity, still completed or expired, and has the same result.
pub Reach-result :
    (s t : Store) (job_id : ℕ) (job : JobRecord)
    → IsValid s
    → Reach s t
    → find_row (λ row. row.job_id == job_id) s.jobs ≡ some job
    → is_final job ≡ true
    → (now : JobRecord) × (find_row (λ row. row.job_id == job_id) t.jobs ≡ some now)
      × (is_final now ≡ true)
      × (now.result_digest ≡ job.result_digest)
Reach-result s t job_id job v r found final =
    let (now, again, e) =
      Remembers-find_row (λ row. row.job_id == job_id) (λ x y k. rw k.same_id refl) s.jobs t.jobs
        job (Reach-Remembers r v) found in
    (now, again, e.final_kept final, e.result_kept final)
