-- ===== src/Workflow/Returning.antt =====
-- A pass of the coordinator over a valid workspace does not raise, and shortens the queue.
use coleman.Workflow.Rowwise.{reconcile_row-Calm}
use coleman.Base.{Bool, ◌||◌, err, Result-cases}
use coleman.Base.{
  ℕ, ◌+◌, ◌≤◌, ◌≡◌, refl, subst, inl, inr, ◌&&◌, not, some, List, [], ◌∷◌, arith, ◌==◌, Bool-cases,
  ok, map_result, All,
}
use coleman.Workflow.Records.{ExperimentPlan, JobRecord, Store, Host, WorkflowError}
use coleman.Workflow.Rows.{validated, load_jobs, plan_row, find_plan}
use coleman.Workflow.Service.{reconcile_row}
use coleman.Workflow.Scheduler.{
  any_queued, check_progress, Claims, claim_row, claim_rows, count_active, active_memory, schedule,
}
use coleman.Workflow.Evolution.{IsSound}
use coleman.Workflow.Validity.{IsValid, IsPlanned}

-- The bound of `max_attempts` in a plan's limits.
abbrev pub HasFewAttempts : ExperimentPlan → Type 0
HasFewAttempts plan = plan.max_attempts ≤ 8

plan_row-All :
    (P : ExperimentPlan → Type 0) (plan_id owner : ℕ) (plans : List ExperimentPlan)
    (plan : ExperimentPlan)
    → All P plans
    → plan_row plan_id owner plans ≡ some plan
    → P plan
plan_row-All P plan_id owner [] plan h e = cc
plan_row-All P plan_id owner (x ∷ plans) plan h e =
    elim (Bool-cases ((x.plan_id == plan_id) && (x.owner == owner))) [
      | inl hit ↦ let it : x ≡ plan = ground (arith, e, hit) in subst P it h.0
      | inr miss ↦ plan_row-All P plan_id owner plans plan h.1 (rw miss at e)
    ]

find_plan-All :
    (P : ExperimentPlan → Type 0) (plan_id owner : ℕ) (plans : List ExperimentPlan)
    (plan : ExperimentPlan)
    → All P plans
    → find_plan plans plan_id owner ≡ ok plan
    → P plan
unfolding find_plan
find_plan-All P plan_id owner plans plan h e =
    let row : plan_row plan_id owner plans ≡ some plan = ground (arith, e) in
    plan_row-All P plan_id owner plans plan h row

-- A row that the pass can work on.
abbrev IsReady : List ExperimentPlan → JobRecord → Type 0
IsReady plans job = IsSound job × IsPlanned plans job

module _ (host : Host) (s : Store) where
  reconcile_row_returns :
      (job : JobRecord) (why : WorkflowError) → IsSound job → reconcile_row host job ≡ err why → ⊥
  unfolding reconcile_row validated
  reconcile_row_returns job why h e = ground arith

  reconcile_row-ok :
      (job : JobRecord)
      → IsReady s.plans job
      → (row : JobRecord) × (reconcile_row host job ≡ ok row) × IsReady s.plans row
  reconcile_row-ok job h = elim (Result-cases (reconcile_row host job)) [
    | inl (row, e) ↦
        let quiet = (reconcile_row-Calm host job row e).quiet in
        let planned : IsPlanned s.plans row =
          rw (quiet.evolves.same_plan, quiet.evolves.same_owner) h.1 in
        (row, e, (quiet.sound h.0, planned))
    | inr (why, e) ↦ absurd (reconcile_row_returns job why h.0 e)
  ]

  map_result-reconcile_row :
      (jobs : List JobRecord)
      → All (IsReady s.plans) jobs
      → (rows : List JobRecord) × (map_result (reconcile_row host) jobs ≡ ok rows)
        × All (IsReady s.plans) rows
  map_result-reconcile_row [] h = ([], refl, tt)
  map_result-reconcile_row (job ∷ jobs) h =
      let (row, e, ready) = reconcile_row-ok job h.0 in
      let (rows, f, others) = map_result-reconcile_row jobs h.1 in
      (row ∷ rows, ground (arith, e, f), (ready, others))

  active_memory-ok :
      (jobs : List JobRecord)
      → All (IsReady s.plans) jobs
      → (memory : ℕ) × (active_memory host s jobs ≡ ok memory)
  unfolding active_memory
  active_memory-ok [] h = (0, refl)
  active_memory-ok (job ∷ jobs) h =
      let (rest, e) = active_memory-ok jobs h.1 in
      elim (Bool-cases (host.is_active job.job_id)) [
        | inl on ↦ (h.0.1.0.max_memory_bytes + rest, ground (arith, e, on, h.0.1.1))
        | inr off ↦ (rest, ground (arith, e, off))
      ]

  claim_row_returns :
      (active memory : ℕ) (job : JobRecord) (plan : ExperimentPlan) (why : WorkflowError)
      → IsSound job
      → find_plan s.plans job.plan_id job.owner ≡ ok plan
      → HasFewAttempts plan
      → claim_row host s active memory job ≡ err why
      → ⊥
  unfolding claim_row validated
  claim_row_returns active memory job plan why sound found few e = ground arith

  claim_rows-ok :
      All HasFewAttempts s.plans
      → (active memory : ℕ) (jobs : List JobRecord) → All (IsReady s.plans) jobs
      → (claims : Claims) × (claim_rows host s active memory jobs ≡ ok claims)
  unfolding claim_rows
  claim_rows-ok few active memory [] h = (_, refl)
  claim_rows-ok few active memory (job ∷ jobs) h =
      let ((sound, (plan, found)), ready) = h in
      let bound = find_plan-All HasFewAttempts job.plan_id job.owner s.plans plan few found in
      elim (Result-cases (claim_row host s active memory job)) [
        | inl (claim, e) ↦
            let (rest, f) = claim_rows-ok few claim.active claim.memory jobs ready in
            let claims : Claims = record {
              jobs = claim.job ∷ rest.jobs;
              active = rest.active;
              memory = rest.memory;
            } in
            (claims, ground (arith, e, f))
        | inr (why, e) ↦ absurd (claim_row_returns active memory job plan why sound found bound e)
      ]

All-pair :
    (P Q : JobRecord → Type 0) (jobs : List JobRecord)
    → All P jobs
    → All Q jobs
    → All (λ job. P job × Q job) jobs
All-pair P Q [] p q = tt
All-pair P Q (job ∷ jobs) p q = ((p.0, q.0), All-pair P Q jobs p.1 q.1)

-- A pass of the coordinator over a valid workspace whose plans allow at most eight attempts
-- returns: none of its rows raises.
pub schedule_returns :
    (host : Host) (s : Store)
    → IsValid s
    → All HasFewAttempts s.plans
    → (r : Store × Bool) × (schedule host s ≡ ok r)
unfolding schedule load_jobs check_progress
schedule_returns host s v few =
    let ready = All-pair IsSound (IsPlanned s.plans) s.jobs v.sound v.planned in
    let (rows, f, rows_ready) = map_result-reconcile_row host s s.jobs ready in
    let (memory, g) = active_memory-ok host s s.jobs ready in
    let (claims, l) = claim_rows-ok host s few (count_active host s.jobs) memory rows rows_ready in
    let few_jobs = v.slots in
    let acknowledged = v.acknowledged in
    let r : Store × Bool = (
      record s { jobs = claims.jobs; observed = s.requested },
      not (claims.active == 0) || any_queued s.jobs,
    ) in
    (r, ground (arith, f, g, l, few_jobs, acknowledged))
