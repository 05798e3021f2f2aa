-- ===== src/Workflow/Rows.antt =====
-- The rows of the job table: the first row that a test finds, updated in its place. Identities are
-- the primary key, so an update by identity reaches this row and no other.
use coleman.Base.{
  ◌&&◌, not, ltb, leb, ◌==◌, ◌>>◌, raise_if, length, ℕ, ◌+◌, Bool, true, false, Option, none, some,
  List, [], ◌∷◌, if◌then◌else◌, Result, ok, err, ◌>>=◌,
}
use coleman.Workflow.Records.{Store, is_live, ExperimentPlan, JobRecord, WorkflowError}

-- `JobRecord.model_validate`: the bounds of the counters.
unfoldable pub validated : JobRecord → Result WorkflowError JobRecord
validated job =
    raise_if
      (not (
        leb job.checkpoint_step 512
        && leb job.completed_trials 128
        && leb 1 job.total_trials
        && leb job.total_trials 128
        && leb job.attempts 2048
        && leb job.invocations 8))
      WorkflowError.invalid_record
    >> ok job

abbrev pub find_row : (JobRecord → Bool) → List JobRecord → Option JobRecord
find_row test [] = none
find_row test (job ∷ jobs) = if test job then some job else find_row test jobs

-- Read a row, run a body on it, and save what it gives. A body that gives the row back is one that
-- does not save.
unfoldable pub update_row :
    (JobRecord → Bool)
    → (JobRecord → Result WorkflowError JobRecord)
    → List JobRecord
    → Result WorkflowError (List JobRecord)
update_row test body [] = err WorkflowError.no_job
update_row test body (job ∷ jobs) = elim (test job) [
  | true ↦ body job >>= λ job'. ok (job' ∷ jobs)
  | false ↦ update_row test body jobs >>= λ jobs'. ok (job ∷ jobs')
]

-- The sum of a weight over the rows.
abbrev pub weigh : (JobRecord → ℕ) → List JobRecord → ℕ
weigh w [] = 0
weigh w (job ∷ jobs) = w job + weigh w jobs

-- `store.jobs(connection)`
unfoldable pub load_jobs : Store → Result WorkflowError (List JobRecord)
load_jobs s =
    raise_if (ltb s.policy.max_jobs (length s.jobs)) WorkflowError.metadata_over_policy >> ok s.jobs

abbrev pub plan_row : ℕ → ℕ → List ExperimentPlan → Option ExperimentPlan
plan_row plan_id owner [] = none
plan_row plan_id owner (plan ∷ plans) =
    if (plan.plan_id == plan_id) && (plan.owner == owner)
    then some plan
    else plan_row plan_id owner plans

-- `store.plan(connection, plan_id, owner)`: the content gives the key.
unfoldable pub find_plan : List ExperimentPlan → ℕ → ℕ → Result WorkflowError ExperimentPlan
find_plan plans plan_id owner = elim (plan_row plan_id owner plans) [
  | none ↦ err WorkflowError.no_plan
  | some plan ↦ raise_if (not (plan.content == plan_id)) WorkflowError.plan_mismatch >> ok plan
]

-- `item.state in ("queued", "running")`, counted.
abbrev pub count_live : List JobRecord → ℕ
count_live jobs = weigh (λ job. if is_live job.state then 1 else 0) jobs
