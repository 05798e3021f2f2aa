-- ===== src/Workflow/Cancelling.antt =====
-- After a cancellation, and after a pass of the coordinator.
use coleman.Workflow.Rowwise.{cancel_row-Calm}
use coleman.Workflow.Safety.{Step-IsValid}
use coleman.Workflow.Steps.{Step}
use coleman.Workflow.Validity.{clash, AllDistinct, IsValid}
use coleman.Base.{
  ◌≤◌, refl, ◌∙◌, subst, inl, inr, true, ◌&&◌, Bool-cases, ok, >>=-eq-ok, ok-injective, length, All,
  ℕ, ◌≡◌, Bool, false, some, List, [], ◌∷◌, arith, ◌==◌, Result, err,
}
use coleman.Workflow.Records.{is_running, ExperimentPlan, JobRecord, Store, Host, WorkflowError}
use coleman.Workflow.Rows.{update_row, validated, load_jobs, find_row}
use coleman.Workflow.Service.{update_owned, cancel_row, cancel}
use coleman.Workflow.Worker.{
  Change, update_job, transition_row, transition, reserve_row, reserve_attempt, complete_row,
  publish_completion,
}
use coleman.Workflow.Validity.{IsValid}
use coleman.Workflow.Moving.{after_load_jobs}

-- What holds of every row holds of the one that is found, which passes the test.
find_row-All :
    (P : JobRecord → Type 0) (test : JobRecord → Bool) (jobs : List JobRecord) (job : JobRecord)
    → All P jobs
    → find_row test jobs ≡ some job
    → P job × (test job ≡ true)
find_row-All P test [] job h e = cc
find_row-All P test (x ∷ jobs) job h e = elim (Bool-cases (test x)) [
  | inl hit ↦
      let it : x ≡ job = ground (arith, e, hit) in
      (subst P it h.0, subst (λ j. test j ≡ true) it hit)
  | inr miss ↦ find_row-All P test jobs job h.1 (rw miss at e)
]

abbrev named : ℕ → JobRecord → Bool
named job_id row = row.job_id == job_id

abbrev owned : ℕ → ℕ → JobRecord → Bool
owned owner job_id row = (row.job_id == job_id) && (row.owner == owner)

-- Identities are unique, so an owned row is the row of its identity.
find_row-AllDistinct :
    (owner job_id : ℕ) (jobs : List JobRecord) (job : JobRecord)
    → AllDistinct jobs
    → find_row (owned owner job_id) jobs ≡ some job
    → find_row (named job_id) jobs ≡ some job
find_row-AllDistinct owner job_id [] job d h = cc
find_row-AllDistinct owner job_id (x ∷ jobs) job d h = elim (Bool-cases (owned owner job_id x)) [
  | inl mine ↦ ground (arith, h, mine)
  | inr other ↦
      let rest : find_row (owned owner job_id) jobs ≡ some job = rw other at h in
      let (apart, it) =
        find_row-All (λ b. clash x b ≡ false) (owned owner job_id) jobs job d.0 rest in
      let ih = find_row-AllDistinct owner job_id jobs job d.1 rest in ground (arith, ih, apart, it)
]

-- The row that an update saves is found in its place.
update_row-find_row :
    (test : JobRecord → Bool) (body : JobRecord → Result WorkflowError JobRecord)
    → ((x y : JobRecord) → body x ≡ ok y → test y ≡ test x)
    → (jobs rows : List JobRecord) → update_row test body jobs ≡ ok rows
    → (old : JobRecord) × (new : JobRecord) × (body old ≡ ok new) × (find_row test rows ≡ some new)
unfolding update_row
update_row-find_row test body same [] rows h = cc
update_row-find_row test body same (x ∷ jobs) rows h = elim (Bool-cases (test x)) [
  | inl hit ↦
      let (y, e, q) = >>=-eq-ok (body x) (λ y. ok (y ∷ jobs)) (rw (hit, update_row) at h) in
      let now : test y ≡ true = same x y e ∙ hit in
      let found : find_row test (y ∷ jobs) ≡ some y = rw now refl in
      (x, y, e, subst (λ r. find_row test r ≡ some y) (ok-injective q) found)
  | inr miss ↦
      let (rest, e, q) =
        >>=-eq-ok (update_row test body jobs) (λ r. ok (x ∷ r)) (rw (miss, update_row) at h) in
      let (old, new, b, found) = update_row-find_row test body same jobs rest e in
      let here : find_row test (x ∷ rest) ≡ some new = rw miss found in
      (old, new, b, subst (λ r. find_row test r ≡ some new) (ok-injective q) here)
]

-- An update by identity that refuses the row refuses the whole.
update_row-err :
    (test : JobRecord → Bool) (body : JobRecord → Result WorkflowError JobRecord)
    (jobs : List JobRecord) (job : JobRecord) (why : WorkflowError)
    → find_row test jobs ≡ some job
    → body job ≡ err why
    → update_row test body jobs ≡ err why
unfolding update_row
update_row-err test body [] job why h e = cc
update_row-err test body (x ∷ jobs) job why h e =
    ground (arith, update_row-err test body jobs job why)

-- A worker's call on a row that does not run is refused.
update_job-err :
    (job_id : ℕ) (body : JobRecord → Result WorkflowError JobRecord) (s : Store) (job : JobRecord)
    → length s.jobs ≤ s.policy.max_jobs
    → find_row (named job_id) s.jobs ≡ some job
    → body job ≡ err WorkflowError.no_longer_running
    → update_job job_id body s ≡ err WorkflowError.no_longer_running
unfolding update_job load_jobs
update_job-err job_id body s job few found refused =
    let e = update_row-err (named job_id) body s.jobs job _ found refused in ground (arith, few, e)

cancel_row_stops :
    (host : Host) (x y : JobRecord) → cancel_row host x ≡ ok y → is_running y.state ≡ false
unfolding cancel_row validated
cancel_row_stops host x y h = ground arith

-- The row of a job that has been cancelled does not run.
cancel-find_row :
    (owner : ℕ) (host : Host) (job_id : ℕ) (s s' : Store)
    → IsValid s
    → cancel owner host job_id s ≡ ok s'
    → (job : JobRecord) × (find_row (named job_id) s'.jobs ≡ some job)
      × (is_running job.state ≡ false)
unfolding cancel update_owned
cancel-find_row owner host job_id s s' v h =
    let v' = Step-IsValid (Step.cancels owner host job_id h) v in
    let (rows, f, q) =
      >>=-eq-ok (update_row (owned owner job_id) (cancel_row host) s.jobs) _
        (after_load_jobs s _ h) in
    let (old, new, e, found) =
      update_row-find_row (owned owner job_id) (cancel_row host)
        (λ x y k.
          let c = (cancel_row-Calm host x y k).quiet.evolves in rw (c.same_id, c.same_owner) refl)
        s.jobs rows f in
    let there =
      subst (λ t. find_row (owned owner job_id) t.jobs ≡ some new) (ok-injective q) found in
    (
      new,
      find_row-AllDistinct owner job_id s'.jobs new v'.distinct there,
      cancel_row_stops host old new e,
    )

-- After a cancellation of a job in a valid workspace, every call of a worker for that job, a
-- transition, the reservation of an attempt or the publication of its report, is refused with the
-- reason that the job no longer runs.
pub cancel_wins :
    (owner : ℕ) (host worker : Host) (job_id : ℕ) (s s' : Store)
    → IsValid s
    → cancel owner host job_id s ≡ ok s'
    → ((changes : Change)
        → transition worker job_id changes s' ≡ err WorkflowError.no_longer_running)
      × ((snapshot : JobRecord) (plan : ExperimentPlan) (trial count : ℕ)
          → snapshot.job_id ≡ job_id
          → reserve_attempt worker snapshot plan trial count s'
            ≡ err WorkflowError.no_longer_running)
      × ((digest bytes : ℕ) (fits : Bool)
          → publish_completion worker job_id digest bytes fits s'
            ≡ err WorkflowError.no_longer_running)
unfolding transition reserve_attempt publish_completion transition_row reserve_row complete_row
cancel_wins owner host worker job_id s s' v h =
    let v' = Step-IsValid (Step.cancels owner host job_id h) v in
    let (job, found, stopped) = cancel-find_row owner host job_id s s' v h in
    (
      λ changes. update_job-err job_id _ s' job v'.slots found (rw stopped refl),
      λ snapshot plan trial count same.
          rw same (update_job-err job_id _ s' job v'.slots found (rw stopped refl)),
      λ digest bytes fits. update_job-err job_id _ s' job v'.slots found (rw stopped refl),
    )
