-- ===== src/Workflow/Service.antt =====
-- The transactions of `WorkflowService` in coleman/application/workflows.py. A transaction that
-- raises is rolled back; a public operation is a sequence of these, each its own transaction.
use coleman.Base.{
  ℕ, ◌+◌, Bool, true, false, ◌&&◌, ◌||◌, not, none, some, List, [], ◌∷◌, ◌++◌, ltb, leb, ◌==◌,
  if◌then◌else◌, Result, ok, err, ◌>>=◌, ◌>>◌, raise_if, map_result, length,
}
use coleman.Workflow.Rows.{
  update_row, validated, load_jobs, find_plan, plan_row, count_live, find_row,
}
use coleman.Workflow.Records.{
  is_awaiting, is_evaluation, is_live, is_terminal, is_expired, is_running, is_completed, State,
  Stage, JobError, ExperimentPlan, ExecutePlan, JobRecord, Store, Host, WorkflowError,
}

-- `plan`, from the resolved plan: saved once for its owner.
unfoldable pub save_plan : ExperimentPlan → Store → Result WorkflowError Store
save_plan plan s = elim (plan_row plan.plan_id plan.owner s.plans) [
  | some _ ↦ ok s
  | none ↦
      raise_if (leb s.policy.max_plans (length s.plans)) WorkflowError.plans_full
      >> ok record s { plans = s.plans ++ plan ∷ [] }
]

-- The bytes that the jobs reserve, expired ones only while their directory stands.
unfoldable pub reserved_bytes : Host → List ExperimentPlan → List JobRecord → Result WorkflowError ℕ
reserved_bytes host plans [] = ok 0
reserved_bytes host plans (job ∷ jobs) =
    elim (not (is_expired job.state) || host.has_output job.job_id) [
      | true ↦ do
        plan ← find_plan plans job.plan_id job.owner
        rest ← reserved_bytes host plans jobs
        ok (plan.max_output_bytes + rest)
      | false ↦ reserved_bytes host plans jobs
    ]

-- `_admission_limits`
unfoldable pub admission_limits :
    Host → Store → List JobRecord → ExperimentPlan → Result WorkflowError (Unit {0})
admission_limits host s jobs plan = do
  raise_if (leb s.policy.max_jobs (length jobs)) WorkflowError.slots_full
  raise_if (leb (s.policy.max_running + s.policy.max_queued) (count_live jobs))
      WorkflowError.queue_full
  reserved ← reserved_bytes host s.plans jobs
  raise_if (ltb s.policy.max_retained_bytes (reserved + plan.max_output_bytes))
      WorkflowError.bytes_exhausted

-- `INSERT INTO jobs`: the identity is the primary key, owner and request are unique.
unfoldable pub insert_job : JobRecord → List JobRecord → Result WorkflowError (List JobRecord)
insert_job job [] = ok (job ∷ [])
insert_job job (old ∷ jobs) =
    raise_if
      ((old.job_id == job.job_id)
        || ((old.owner == job.owner) && (old.request_id == job.request_id)))
      WorkflowError.duplicate_row
    >> (insert_job job jobs >>= λ rest. ok (old ∷ rest))

-- `plan.runtime != InstalledRuntime.capture() or plan.native_threads != pl.thread_pool_size()`
abbrev pub is_incompatible : Host → ExperimentPlan → Bool
is_incompatible host plan =
    not (plan.runtime == host.runtime) || not (plan.native_threads == host.native_threads)

-- A transaction on an owned job: `_job`, a body, and `save_job` of what the body gives.
unfoldable pub update_owned :
    ℕ → ℕ → (JobRecord → Result WorkflowError JobRecord) → Store → Result WorkflowError Store
update_owned owner job_id body s = do
  jobs ← load_jobs s
  rows ← update_row (λ job. (job.job_id == job_id) && (job.owner == owner)) body jobs
  ok record s { jobs = rows }

module _ (host : Host) where
  unfoldable pub reconcile_row : JobRecord → Result WorkflowError JobRecord
  reconcile_row job =
      if is_running job.state && not (host.is_active job.job_id)
      then validated record job {
        state = State.interrupted;
        changed = host.now;
        error = some JobError.worker_ownership_lost;
      }
      else ok job

  unfoldable pub cancel_row : JobRecord → Result WorkflowError JobRecord
  cancel_row job =
      if is_terminal job.state
      then ok job
      else validated record job { state = State.cancelled; changed = host.now }

module _ (owner : ℕ) (host : Host) where
  abbrev pub new_job : ExecutePlan → ExperimentPlan → JobRecord
  new_job request plan = record {
    job_id = host.new_id;
    owner = owner;
    request_id = request.request_id;
    request_digest = host.fingerprint request;
    plan_id = request.plan_id;
    state = State.queued;
    stage = if plan.is_protected then Stage.tuning else Stage.descriptive;
    created = host.now;
    changed = host.now;
    current_trial = none;
    checkpoint_step = 0;
    completed_trials = 0;
    total_trials = plan.trials;
    attempts = 0;
    invocations = 0;
    error = none;
    result_digest = none;
  }

  -- A request that the table does not have.
  unfoldable pub admit_new : ExecutePlan → Store → List JobRecord → Result WorkflowError (Store × ℕ)
  admit_new request s jobs = do
    plan ← find_plan s.plans request.plan_id owner
    raise_if (is_incompatible host plan) WorkflowError.incompatible_runtime
    admission_limits host s jobs plan
    job ← validated (new_job request plan)
    rows ← insert_job job s.jobs
    ok (record s { jobs = rows }, job.job_id)

  -- The transaction of `execute`: the store and the identity of the job.
  unfoldable pub admit : ExecutePlan → Store → Result WorkflowError (Store × ℕ)
  admit request s = do
    jobs ← load_jobs s
    elim (find_row (λ job. (job.owner == owner) && (job.request_id == request.request_id)) jobs) [
      | some existing ↦
          raise_if (not (existing.request_digest == host.fingerprint request))
            WorkflowError.key_conflict
          >> ok (s, existing.job_id)
      | none ↦ admit_new request s jobs
    ]

  -- The transaction of `status`.
  unfoldable pub reconcile : ℕ → Store → Result WorkflowError Store
  reconcile job_id = update_owned owner job_id (reconcile_row host)

  -- The transaction of `cancel`.
  unfoldable pub cancel : ℕ → Store → Result WorkflowError Store
  cancel job_id = update_owned owner job_id (cancel_row host)

  -- The body of `resume`, given the number of live jobs.
  unfoldable pub requeue_row : Store → JobRecord → Result WorkflowError JobRecord
  requeue_row s job =
      if is_completed job.state || is_live job.state || is_awaiting job.state
      then ok job
      else find_plan s.plans job.plan_id owner >>= λ plan.
          raise_if (is_expired job.state || host.is_active job.job_id) WorkflowError.cannot_resume
          >> (raise_if (is_incompatible host plan || leb plan.max_attempts job.invocations)
                WorkflowError.not_allowed
              >> (raise_if (leb (s.policy.max_running + s.policy.max_queued) (count_live s.jobs))
                    WorkflowError.queue_full
                  >> validated
                      record job { state = State.queued; error = none; changed = host.now }))

  -- The second transaction of `resume`, after that of `status`.
  unfoldable pub requeue : ℕ → Store → Result WorkflowError Store
  requeue job_id s = update_owned owner job_id (requeue_row s) s

  -- The body of `evaluate`.
  unfoldable pub evaluate_row : Store → JobRecord → Result WorkflowError JobRecord
  evaluate_row s job = find_plan s.plans job.plan_id owner >>= λ plan.
      raise_if (not plan.is_protected) WorkflowError.not_protected
      >> (if is_completed job.state || is_evaluation job.stage
          then ok job
          else raise_if (not (is_awaiting job.state)) WorkflowError.not_tuned
            >> (raise_if (is_incompatible host plan || leb plan.max_attempts job.invocations)
                  WorkflowError.not_allowed
                >> (raise_if (leb (s.policy.max_running + s.policy.max_queued) (count_live s.jobs))
                      WorkflowError.queue_full
                    >> (elim (host.evaluation_trials plan) [
                      | none ↦ err WorkflowError.evaluation_refused
                      | some trials ↦ validated record job {
                        stage = Stage.evaluation;
                        state = State.queued;
                        completed_trials = 0;
                        total_trials = trials;
                        checkpoint_step = 0;
                        current_trial = none;
                        changed = host.now;
                      }
                    ]))))

  -- The transaction of `evaluate`.
  unfoldable pub evaluate : ℕ → Store → Result WorkflowError Store
  evaluate job_id s = update_owned owner job_id (evaluate_row s) s

  abbrev pub is_removed : JobRecord → Bool
  is_removed job = (job.owner == owner) && is_expired job.state && not (host.is_active job.job_id)

  -- The rows that `cleanup` passes over.
  abbrev pub is_kept : ℕ → JobRecord → Bool
  is_kept retention job =
      not (job.owner == owner)
      || not (is_terminal job.state)
      || is_expired job.state
      || ltb host.now (job.changed + retention)
      || host.is_active job.job_id

  unfoldable pub expire_row : ℕ → JobRecord → Result WorkflowError JobRecord
  expire_row retention job =
      if is_kept retention job
      then ok job
      else validated record job { state = State.expired; changed = host.now }

  -- `expired`: the directories that are removed after the transaction.
  abbrev pub expired_ids : ℕ → List JobRecord → List ℕ
  expired_ids retention [] = []
  expired_ids retention (job ∷ jobs) =
      if is_removed job || not (is_kept retention job)
      then job.job_id ∷ expired_ids retention jobs
      else expired_ids retention jobs

  unfoldable pub cleanup : Store → Result WorkflowError (Store × List ℕ)
  cleanup s = do
    jobs ← load_jobs s
    rows ← map_result (expire_row s.policy.retention_seconds) jobs
    ok (record s { jobs = rows }, expired_ids s.policy.retention_seconds jobs)
