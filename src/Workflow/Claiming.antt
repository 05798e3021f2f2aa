-- ===== src/Workflow/Claiming.antt =====
-- The loop of `_schedule`: how many workers it starts, and how much memory they reserve.
use coleman.Workflow.Records.{is_queued}
use coleman.Workflow.Service.{reconcile_row}
use coleman.Workflow.Pairs.{Pairwise, map_result-cases}
use coleman.Workflow.Scheduler.{count_active, Claims, claim_rows, active_memory}
use coleman.Base.{
  inr, inl, Bool-cases, subst, [], ◌∷◌, map_result, >>=-eq-ok, ok-injective, ℕ, ◌+◌, ◌≤◌, ◌≡◌, ◌⊎◌,
  true, List, arith, if◌then◌else◌, ok, err,
}
use coleman.Workflow.Records.{is_live, is_running, ExperimentPlan, JobRecord, Store, Host}
use coleman.Workflow.Rows.{weigh, validated, find_plan}
use coleman.Workflow.Scheduler.{Claim, claim_row}
use coleman.Workflow.Evolution.{IsSound, Evolves}

-- The memory that the plan of a job allows.
abbrev pub plan_memory : List ExperimentPlan → JobRecord → ℕ
plan_memory plans job = elim (find_plan plans job.plan_id job.owner) [
  | ok plan ↦ plan.max_memory_bytes
  | err _ ↦ 0
]

abbrev pub running_one : JobRecord → ℕ
running_one job = if is_running job.state then 1 else 0

abbrev pub running_memory : List ExperimentPlan → JobRecord → ℕ
running_memory plans job = if is_running job.state then plan_memory plans job else 0

-- A turn may start the row's job, and no other change makes it live or running.
pub record Claimed (job job' : JobRecord) : Type 0 where
  pub evolves : Evolves job job'
  pub sound : IsSound job → IsSound job'
  pub no_revival : is_live job'.state ≡ true → is_live job.state ≡ true
  pub no_requeue : is_queued job'.state ≡ true → is_queued job.state ≡ true

-- The counters of a turn, or of the whole loop, move with the rows that start, and stay under the
-- host's limits when they move.
pub record Accounts (s : Store) (active memory active' memory' running running' bytes bytes' : ℕ)
    : Type 0 where
  pub more_workers : active ≤ active'
  pub workers : running' + active ≡ running + active'
  pub reserved : bytes' + memory ≡ bytes + memory'
  pub workers_limit : (active' ≡ active) ⊎ (active' ≤ s.policy.max_running)
  pub memory_limit : (memory' ≡ memory) ⊎ (memory' ≤ s.policy.max_active_memory_bytes)

module _ (host : Host) (s : Store) where
  claim_row-Claimed :
      (active memory : ℕ) (job : JobRecord) (c : Claim)
      → claim_row host s active memory job ≡ ok c
      → Claimed job c.job
  unfolding claim_row validated
  claim_row-Claimed active memory job c h = ground arith

  claim_row-Accounts :
      (active memory : ℕ) (job : JobRecord) (c : Claim)
      → claim_row host s active memory job ≡ ok c
      → Accounts s active memory c.active c.memory
          (running_one job)
          (running_one c.job)
          (running_memory s.plans job)
          (running_memory s.plans c.job)
  unfolding claim_row validated
  claim_row-Accounts active memory job c h = ground arith

  pub claim_rows-Claimed :
      (active memory : ℕ) (jobs : List JobRecord) (c : Claims)
      → claim_rows host s active memory jobs ≡ ok c
      → Pairwise Claimed jobs c.jobs
  unfolding claim_rows
  claim_rows-Claimed active memory [] c h =
      subst (λ c. Pairwise Claimed [] c.jobs) (ok-injective h) tt
  claim_rows-Claimed active memory (job ∷ jobs) c h =
      let (turn, e, k) = >>=-eq-ok (claim_row host s active memory job) _ h in
      let (rest, f, q) = >>=-eq-ok (claim_rows host s turn.active turn.memory jobs) _ k in
      subst (λ c. Pairwise Claimed (job ∷ jobs) c.jobs) (ok-injective q)
        (
          claim_row-Claimed active memory job turn e,
          claim_rows-Claimed turn.active turn.memory jobs rest f,
        )

  pub claim_rows-Accounts :
      (active memory : ℕ) (jobs : List JobRecord) (c : Claims)
      → claim_rows host s active memory jobs ≡ ok c
      → Accounts s active memory c.active c.memory
          (weigh running_one jobs)
          (weigh running_one c.jobs)
          (weigh (running_memory s.plans) jobs)
          (weigh (running_memory s.plans) c.jobs)
  unfolding claim_rows
  claim_rows-Accounts active memory [] c h = ground arith
  claim_rows-Accounts active memory (job ∷ jobs) c h =
      let (turn, e, k) = >>=-eq-ok (claim_row host s active memory job) _ h in
      let (rest, f, q) = >>=-eq-ok (claim_rows host s turn.active turn.memory jobs) _ k in
      let first = claim_row-Accounts active memory job turn e in
      let others = claim_rows-Accounts turn.active turn.memory jobs rest f in ground arith

module _ (host : Host) where
  reconciled_one :
      (job row : JobRecord)
      → reconcile_row host job ≡ ok row
      → (row.plan_id ≡ job.plan_id)
        × (row.owner ≡ job.owner)
        × (is_running row.state ≡ true → host.is_active job.job_id ≡ true)
  unfolding reconcile_row validated
  reconciled_one job row h = ground arith

  -- The rows that still run after reconciliation are those of active workers.
  pub reconciled-count_active :
      (jobs rows : List JobRecord)
      → map_result (reconcile_row host) jobs ≡ ok rows
      → weigh running_one rows ≤ count_active host jobs
  reconciled-count_active [] rows h = ground arith
  reconciled-count_active (job ∷ jobs) rows h =
      let (row, rest, e, f, q) = map_result-cases (reconcile_row host) job jobs rows h in
      let ih = reconciled-count_active jobs rest f in
      let one = reconciled_one job row e in ground arith

  pub reconciled-active_memory :
      (s : Store) (jobs rows : List JobRecord) (memory : ℕ)
      → map_result (reconcile_row host) jobs ≡ ok rows
      → active_memory host s jobs ≡ ok memory
      → weigh (running_memory s.plans) rows ≤ memory
  unfolding active_memory
  reconciled-active_memory s [] rows memory h k = ground arith
  reconciled-active_memory s (job ∷ jobs) rows memory h k =
      let (row, rest, e, f, q) = map_result-cases (reconcile_row host) job jobs rows h in
      let one = reconciled_one job row e in
      elim (Bool-cases (host.is_active job.job_id)) [
        | inl on ↦
            let (plan, g, k1) =
              >>=-eq-ok (find_plan s.plans job.plan_id job.owner) _ (rw (on, active_memory) at k) in
            let (others, l, k2) = >>=-eq-ok (active_memory host s jobs) _ k1 in
            let ih = reconciled-active_memory s jobs rest others f l in ground arith
        | inr off ↦
            let ih = reconciled-active_memory s jobs rest memory f (rw (off, active_memory) at k) in
            ground arith
      ]
