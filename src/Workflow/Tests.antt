-- ===== src/Workflow/Tests.antt =====
-- A workspace with one plan, and runs of the transactions on it.
use coleman.Base.{
  ℕ, ◌+◌, ◌<◌, ◌≡◌, refl, Bool, true, false, none, some, [], ◌∷◌, arith, ◌==◌, ok, err, All,
}
use coleman.Workflow.Records.{
  State, Stage, HostPolicy, ExperimentPlan, ExecutePlan, JobRecord, Store, Host, WorkflowError,
}
use coleman.Workflow.Service.{
  save_plan, admit, admit_new, admission_limits, reserved_bytes, insert_job, reconcile_row, cancel,
  update_owned, cancel_row,
}
use coleman.Workflow.Rows.{count_live, update_row, validated, load_jobs, find_plan, find_row}
use coleman.Workflow.Scheduler.{schedule, active_memory, claim_rows, claim_row, check_progress}
use coleman.Workflow.Worker.{
  Change, transition, publish_completion, reserve_attempt, complete_row, update_job,
}
use coleman.Workflow.Steps.{Step, Reach, empty_store}
use coleman.Workflow.Evolution.{is_final}
use coleman.Workflow.Validity.{IsValid}
use coleman.Workflow.Safety.{Reach-empty_store}
use coleman.Workflow.History.{admit-Reach, Reach-result}
use coleman.Workflow.Cancelling.{cancel_wins}
use coleman.Workflow.Progress.{count_queued, schedule_retires}
use coleman.Workflow.Returning.{schedule_returns}
use coleman.Workflow.Queue.{IsStartable, schedule_shortens_queue}

abbrev policy : HostPolicy
policy = record {
  max_running = 1;
  max_queued = 2;
  max_jobs = 4;
  max_plans = 4;
  max_retained_bytes = 1000;
  max_active_memory_bytes = 100;
  retention_seconds = 10;
}

abbrev plan : ExperimentPlan
plan = record {
  plan_id = 7;
  owner = 1;
  content = 7;
  runtime = 3;
  native_threads = 2;
  is_protected = false;
  trials = 5;
  max_attempts = 2;
  max_output_bytes = 400;
  max_memory_bytes = 60;
}

abbrev host : Host
host = record {
  runtime = 3;
  native_threads = 2;
  now = 20;
  is_active = λ _. false;
  is_lockable = λ _. true;
  has_output = λ _. true;
  new_id = 11;
  fingerprint = λ r. r.request_id + r.plan_id;
  evaluation_trials = λ _. none;
}

-- The host while the worker of the job holds its lock.
abbrev busy : Host
busy = record host { is_active = λ i. i == 11; now = 21 }

abbrev request : ExecutePlan
request = record { request_id = 5; plan_id = 7 }

abbrev queued_job : JobRecord
queued_job = record {
  job_id = 11;
  owner = 1;
  request_id = 5;
  request_digest = 12;
  plan_id = 7;
  state = State.queued;
  stage = Stage.descriptive;
  created = 20;
  changed = 20;
  current_trial = none;
  checkpoint_step = 0;
  completed_trials = 0;
  total_trials = 5;
  attempts = 0;
  invocations = 0;
  error = none;
  result_digest = none;
}

abbrev running_job : JobRecord
running_job = record queued_job { state = State.running; invocations = 1 }

abbrev completed_job : JobRecord
completed_job = record running_job {
  state = State.completed;
  result_digest = some 99;
  changed = 21;
}

abbrev empty : Store
empty = empty_store policy

abbrev planned : Store
planned = record empty { plans = plan ∷ [] }

abbrev queued : Store
queued = record planned { jobs = queued_job ∷ [] }

abbrev running : Store
running = record queued { jobs = running_job ∷ [] }

abbrev completed : Store
completed = record running { jobs = completed_job ∷ [] }

abbrev cancelled : Store
cancelled = record running {
  jobs = record running_job { state = State.cancelled; changed = 20 } ∷ [];
}

save_plan_run : save_plan plan empty ≡ ok planned
unfolding save_plan
save_plan_run = refl

admit_run : admit 1 host request planned ≡ ok (queued, 11)
unfolding admit admit_new load_jobs find_plan admission_limits reserved_bytes validated insert_job
admit_run = refl

schedule_run : schedule host queued ≡ ok (running, true)
unfolding schedule load_jobs reconcile_row find_plan active_memory claim_rows claim_row validated
    check_progress
schedule_run = refl

complete_run : publish_completion busy 11 99 1000 true running ≡ ok completed
unfolding publish_completion update_job update_row load_jobs complete_row validated
complete_run = refl

cancel_run : cancel 1 host 11 running ≡ ok cancelled
unfolding cancel update_owned update_row load_jobs cancel_row validated
cancel_run = refl

retires_run : schedule host completed ≡ ok (completed, false)
unfolding schedule load_jobs reconcile_row find_plan active_memory claim_rows claim_row validated
    check_progress
retires_run = refl

planned-Reach : Reach empty planned
planned-Reach = Reach.next Reach.here (Step.saves plan save_plan_run)

queued-Reach : Reach empty queued
queued-Reach = Reach.next planned-Reach (Step.admits 1 host request 11 admit_run)

started : Reach queued completed
started =
    Reach.next (Reach.next Reach.here (Step.schedules host true schedule_run))
      (Step.completes busy 11 99 1000 true complete_run)

running-Reach : Reach empty running
running-Reach = Reach.next queued-Reach (Step.schedules host true schedule_run)

completed-Reach : Reach empty completed
completed-Reach = Reach.next running-Reach (Step.completes busy 11 99 1000 true complete_run)

Reach-empty_store_example : IsValid completed
Reach-empty_store_example = Reach-empty_store policy completed completed-Reach

admit-Reach_example : admit 1 busy request completed ≡ ok (completed, 11)
admit-Reach_example =
    admit-Reach 1 host busy request planned queued completed 11
      (Reach-empty_store policy planned planned-Reach) admit_run started refl

Reach-result_example :
    (now : JobRecord) × (find_row (λ row. row.job_id == 11) completed.jobs ≡ some now)
    × (is_final now ≡ true)
    × (now.result_digest ≡ some 99)
Reach-result_example =
    Reach-result completed completed 11 completed_job
      (Reach-empty_store policy completed completed-Reach) Reach.here refl refl

cancel_wins_example :
    ((changes : Change)
      → transition busy 11 changes cancelled ≡ err WorkflowError.no_longer_running)
    × ((snapshot : JobRecord) (saved : ExperimentPlan) (trial count : ℕ)
        → snapshot.job_id ≡ 11
        → reserve_attempt busy snapshot saved trial count cancelled
          ≡ err WorkflowError.no_longer_running)
    × ((digest bytes : ℕ) (fits : Bool)
        → publish_completion busy 11 digest bytes fits cancelled
          ≡ err WorkflowError.no_longer_running)
cancel_wins_example =
    cancel_wins 1 host busy 11 running cancelled (Reach-empty_store policy running running-Reach)
      cancel_run

schedule_retires_example : count_live completed.jobs ≡ 0
schedule_retires_example = schedule_retires host completed completed retires_run

schedule_returns_example : (r : Store × Bool) × (schedule host queued ≡ ok r)
schedule_returns_example =
    schedule_returns host queued (Reach-empty_store policy queued queued-Reach) (omega arith, tt)

startable : All (IsStartable host queued) queued.jobs
unfolding find_plan
startable = (record { free = λ _. refl; fits = λ saved e. ground (arith, e) }, tt)

schedule_shortens_queue_example : count_queued running.jobs < count_queued queued.jobs
schedule_shortens_queue_example =
    schedule_shortens_queue host queued running true (omega arith) refl (omega arith) startable
      schedule_run
