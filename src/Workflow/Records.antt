-- ===== src/Workflow/Records.antt =====
-- The records of coleman/application/workflow_store.py and coleman/workflows/lifecycle.py.
use coleman.Base.{ℕ, Bool, true, false, Option, List}

pub data State : Type 0 where
  queued running awaiting_evaluation interrupted failed cancelled completed expired : State

pub data Stage : Type 0 where
  descriptive tuning evaluation : Stage

-- The stable failure reasons of a job.
pub data JobError : Type 0 where
  worker_ownership_lost invocation_limit sampled_resource_limit : JobError
  failure : ℕ → JobError

-- The limits that admission and scheduling read.
pub record HostPolicy : Type 0 where
  pub max_running : ℕ
  pub max_queued : ℕ
  pub max_jobs : ℕ
  pub max_plans : ℕ
  pub max_retained_bytes : ℕ
  pub max_active_memory_bytes : ℕ
  pub retention_seconds : ℕ

-- A saved plan: its key, its content's fingerprint, and the fields that jobs depend on.
pub record ExperimentPlan : Type 0 where
  pub plan_id : ℕ
  pub owner : ℕ
  pub content : ℕ
  pub runtime : ℕ
  pub native_threads : ℕ
  pub is_protected : Bool
  pub trials : ℕ
  pub max_attempts : ℕ
  pub max_output_bytes : ℕ
  pub max_memory_bytes : ℕ

pub record ExecutePlan : Type 0 where
  pub request_id : ℕ
  pub plan_id : ℕ

pub record JobRecord : Type 0 where
  pub job_id : ℕ
  pub owner : ℕ
  pub request_id : ℕ
  pub request_digest : ℕ
  pub plan_id : ℕ
  pub state : State
  pub stage : Stage
  pub created : ℕ
  pub changed : ℕ
  pub current_trial : Option ℕ
  pub checkpoint_step : ℕ
  pub completed_trials : ℕ
  pub total_trials : ℕ
  pub attempts : ℕ
  pub invocations : ℕ
  pub error : Option JobError
  pub result_digest : Option ℕ

-- The tables of a workspace, and the counters of its coordinator.
pub record Store : Type 0 where
  pub policy : HostPolicy
  pub plans : List ExperimentPlan
  pub jobs : List JobRecord
  pub requested : ℕ
  pub observed : ℕ

-- What one transaction reads from outside: the installed runtime, the clock, the kernel locks, the
-- directories of outputs, a fresh identity, and the functions that fingerprint and evaluate.
pub record Host : Type 0 where
  pub runtime : ℕ
  pub native_threads : ℕ
  pub now : ℕ
  pub is_active : ℕ → Bool
  pub is_lockable : ℕ → Bool
  pub has_output : ℕ → Bool
  pub new_id : ℕ
  pub fingerprint : ExecutePlan → ℕ
  pub evaluation_trials : ExperimentPlan → Option ℕ

-- What a transaction raises; it is rolled back, so a raise carries no store.
pub data WorkflowError : Type 0 where
  metadata_over_policy no_plan plan_mismatch no_job key_conflict : WorkflowError
  incompatible_runtime slots_full queue_full bytes_exhausted duplicate_row : WorkflowError
  cannot_resume not_allowed not_protected not_tuned evaluation_refused : WorkflowError
  no_longer_running attempts_exhausted generation_exhausted : WorkflowError
  invalid_record plans_full report_too_large output_exceeded : WorkflowError
  corrupt_progress startup_claim_differs : WorkflowError

-- `TERMINAL`
abbrev pub is_terminal : State → Bool
is_terminal State.queued = false
is_terminal State.running = false
is_terminal State.awaiting_evaluation = true
is_terminal State.interrupted = true
is_terminal State.failed = true
is_terminal State.cancelled = true
is_terminal State.completed = true
is_terminal State.expired = true

-- `state in ("queued", "running")`
abbrev pub is_live : State → Bool
is_live State.queued = true
is_live State.running = true
is_live State.awaiting_evaluation = false
is_live State.interrupted = false
is_live State.failed = false
is_live State.cancelled = false
is_live State.completed = false
is_live State.expired = false

abbrev pub is_queued : State → Bool
is_queued s = elim s [ State.queued ↦ true | _ ↦ false ]

abbrev pub is_running : State → Bool
is_running s = elim s [ State.running ↦ true | _ ↦ false ]

abbrev pub is_expired : State → Bool
is_expired s = elim s [ State.expired ↦ true | _ ↦ false ]

abbrev pub is_evaluation : Stage → Bool
is_evaluation s = elim s [ Stage.evaluation ↦ true | _ ↦ false ]

abbrev pub is_completed : State → Bool
is_completed s = elim s [ State.completed ↦ true | _ ↦ false ]

abbrev pub is_awaiting : State → Bool
is_awaiting s = elim s [ State.awaiting_evaluation ↦ true | _ ↦ false ]
