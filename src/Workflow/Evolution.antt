-- ===== src/Workflow/Evolution.antt =====
-- What one transaction may do to one row of the job table.
use coleman.Base.{◌≤◌, ◌≡◌, ◌≢◌, Bool, true, false, ◌||◌, none, arith, ok}
use coleman.Workflow.Records.{is_expired, is_completed, JobRecord}
use coleman.Workflow.Rows.{validated}

-- `job` can only become expired any more, and keeps its result.
abbrev pub is_final : JobRecord → Bool
is_final job = is_completed job.state || is_expired job.state

-- The bounds of `JobRecord`, and a result exactly with the publication.
pub record IsSound (job : JobRecord) : Type 0 where
  pub step_bound : job.checkpoint_step ≤ 512
  pub completed_bound : job.completed_trials ≤ 128
  pub total_positive : 1 ≤ job.total_trials
  pub total_bound : job.total_trials ≤ 128
  pub attempts_bound : job.attempts ≤ 2048
  pub invocations_bound : job.invocations ≤ 8
  pub published : is_completed job.state ≡ true → job.result_digest ≢ none
  pub unpublished : is_final job ≡ false → job.result_digest ≡ none

-- Identities stay, starts are never forgotten, a completed row keeps its result, and an expired one
-- stays expired.
pub record Evolves (job job' : JobRecord) : Type 0 where
  pub same_id : job'.job_id ≡ job.job_id
  pub same_owner : job'.owner ≡ job.owner
  pub same_request : job'.request_id ≡ job.request_id
  pub same_digest : job'.request_digest ≡ job.request_digest
  pub same_plan : job'.plan_id ≡ job.plan_id
  pub starts_kept : job.invocations ≤ job'.invocations
  pub final_kept : is_final job ≡ true → is_final job' ≡ true
  pub result_kept : is_final job ≡ true → job'.result_digest ≡ job.result_digest
  pub expired_kept : is_expired job.state ≡ true → is_expired job'.state ≡ true

-- A row that the guard lets through, with its bounds.
pub record Checked (job job' : JobRecord) : Type 0 where
  pub same : job' ≡ job
  pub step_bound : job.checkpoint_step ≤ 512
  pub completed_bound : job.completed_trials ≤ 128
  pub total_positive : 1 ≤ job.total_trials
  pub total_bound : job.total_trials ≤ 128
  pub attempts_bound : job.attempts ≤ 2048
  pub invocations_bound : job.invocations ≤ 8

pub validated-Checked :
    (job : JobRecord) {job' : JobRecord} → validated job ≡ ok job' → Checked job job'
unfolding validated
validated-Checked job h = ground arith

pub Evolves-refl : (job : JobRecord) → Evolves job job
Evolves-refl job = ground arith

pub Evolves-trans : {a b c : JobRecord} → Evolves a b → Evolves b c → Evolves a c
Evolves-trans ab bc = ground arith
