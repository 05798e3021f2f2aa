-- ===== src/Workflow/Scheduler.antt =====
-- The coordinator in coleman/application/workflow_supervisor.py: what one transaction of it does.
use coleman.Base.{
  ℕ, ◌+◌, ◌-◌, ◌^◌, Bool, true, false, ◌||◌, not, Option, none, some, List, [], ◌∷◌, ltb, leb, ◌==◌,
  if◌then◌else◌, Result, ok, ◌>>=◌, ◌>>◌, raise_if, map_result,
}
use coleman.Workflow.Rows.{validated, load_jobs, find_plan, weigh}
use coleman.Workflow.Records.{is_queued, State, JobError, JobRecord, Store, Host, WorkflowError}
use coleman.Workflow.Service.{reconcile_row}

-- `_MAX_GENERATION`
abbrev pub max_generation : ℕ
max_generation = 2 ^ 63 - 1

abbrev pub any_queued : List JobRecord → Bool
any_queued [] = false
any_queued (job ∷ jobs) = is_queued job.state || any_queued jobs

-- `_progress`: the counters are validated as they are read.
unfoldable pub check_progress : Store → Result WorkflowError (Unit {0})
check_progress s = raise_if (ltb s.requested s.observed) WorkflowError.corrupt_progress

-- `_request_observation`: the generation that is asked for, when a job waits.
unfoldable pub request_observation : Store → Result WorkflowError (Store × Option ℕ)
request_observation s = do
  jobs ← load_jobs s
  elim (any_queued jobs) [
    | true ↦ do
      check_progress s
      raise_if (s.requested == max_generation) WorkflowError.generation_exhausted
      ok (record s { requested = s.requested + 1 }, some (s.requested + 1))
    | false ↦ ok (s, none)
  ]

-- `_reconcile_ownership`: `active_ids` are the identities whose lock is held.
abbrev pub reconcile_ownership : Host → List JobRecord → Result WorkflowError (List JobRecord)
reconcile_ownership host = map_result (reconcile_row host)

-- A row after its turn, with the number of workers and the memory they reserve.
pub record Claim : Type 0 where
  pub job : JobRecord
  pub active : ℕ
  pub memory : ℕ

pub record Claims : Type 0 where
  pub jobs : List JobRecord
  pub active : ℕ
  pub memory : ℕ

-- `active`, counted: the rows whose worker holds its kernel lock.
abbrev pub count_active : Host → List JobRecord → ℕ
count_active host jobs = weigh (λ job. if host.is_active job.job_id then 1 else 0) jobs

module _ (host : Host) (s : Store) where
  -- One turn of the loop of `_schedule`. A lock that is taken is a `BaselineBusyError`.
  unfoldable pub claim_row : ℕ → ℕ → JobRecord → Result WorkflowError Claim
  claim_row active memory job =
      let kept : Claim = record { job = job; active = active; memory = memory } in
      if not (is_queued job.state) || leb s.policy.max_running active
      then ok kept
      else find_plan s.plans job.plan_id job.owner >>= λ plan.
          if ltb s.policy.max_active_memory_bytes (memory + plan.max_memory_bytes)
            || not (host.is_lockable job.job_id)
          then ok kept
          else if leb plan.max_attempts job.invocations
          then validated record job {
            state = State.failed;
            changed = host.now;
            error = some JobError.invocation_limit;
          }
            >>= (λ row. ok record { job = row; active = active; memory = memory })
          else validated record job {
            state = State.running;
            changed = host.now;
            invocations = job.invocations + 1;
            error = none;
          }
            >>= (λ row.
                ok record {
                  job = row;
                  active = active + 1;
                  memory = memory + plan.max_memory_bytes;
                })

  -- The loop of `_schedule`, from the number of workers and the memory they reserve.
  unfoldable pub claim_rows : ℕ → ℕ → List JobRecord → Result WorkflowError Claims
  claim_rows active memory [] = ok record { jobs = []; active = active; memory = memory }
  claim_rows active memory (job ∷ jobs) = do
    claim ← claim_row active memory job
    rest ← claim_rows claim.active claim.memory jobs
    ok record { jobs = claim.job ∷ rest.jobs; active = rest.active; memory = rest.memory }

  -- `sum(store.plan(...).request.limits.max_memory_bytes for job in active)`
  unfoldable pub active_memory : List JobRecord → Result WorkflowError ℕ
  active_memory [] = ok 0
  active_memory (job ∷ jobs) = elim (host.is_active job.job_id) [
    | true ↦ do
      plan ← find_plan s.plans job.plan_id job.owner
      rest ← active_memory jobs
      ok (plan.max_memory_bytes + rest)
    | false ↦ active_memory jobs
  ]

  -- `_schedule`: the store, and whether work is pending.
  unfoldable pub schedule : Result WorkflowError (Store × Bool)
  schedule = do
    jobs ← load_jobs s
    reconciled ← reconcile_ownership host jobs
    memory ← active_memory jobs
    claims ← claim_rows (count_active host jobs) memory reconciled
    check_progress s
    ok (
      record s { jobs = claims.jobs; observed = s.requested },
      not (claims.active == 0) || any_queued jobs,
    )
