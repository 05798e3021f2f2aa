-- ===== src/Workflow/Steps.antt =====
-- A workspace as a transition system: each committed transaction is a step, in any order.
use coleman.Base.{ℕ, ◌≡◌, Bool, Option, List, [], ok}
use coleman.Workflow.Records.{HostPolicy, ExperimentPlan, ExecutePlan, JobRecord, Store, Host}
use coleman.Workflow.Service.{save_plan, admit, reconcile, cancel, requeue, evaluate, cleanup}
use coleman.Workflow.Scheduler.{request_observation, schedule}
use coleman.Workflow.Worker.{Change, transition, reserve_attempt, publish_completion}

pub data Step (s s' : Store) : Type 0 where
  saves : (plan : ExperimentPlan) → save_plan plan s ≡ ok s' → Step s s'
  admits :
      (owner : ℕ) (host : Host) (request : ExecutePlan) (job_id : ℕ)
      → admit owner host request s ≡ ok (s', job_id)
      → Step s s'
  reconciles :
      (owner : ℕ) (host : Host) (job_id : ℕ) → reconcile owner host job_id s ≡ ok s' → Step s s'
  cancels : (owner : ℕ) (host : Host) (job_id : ℕ) → cancel owner host job_id s ≡ ok s' → Step s s'
  requeues :
      (owner : ℕ) (host : Host) (job_id : ℕ) → requeue owner host job_id s ≡ ok s' → Step s s'
  evaluates :
      (owner : ℕ) (host : Host) (job_id : ℕ) → evaluate owner host job_id s ≡ ok s' → Step s s'
  cleans :
      (owner : ℕ) (host : Host) (ids : List ℕ) → cleanup owner host s ≡ ok (s', ids) → Step s s'
  requests : (generation : Option ℕ) → request_observation s ≡ ok (s', generation) → Step s s'
  schedules : (host : Host) (pending : Bool) → schedule host s ≡ ok (s', pending) → Step s s'
  transitions :
      (host : Host) (job_id : ℕ) (changes : Change)
      → transition host job_id changes s ≡ ok s'
      → Step s s'
  reserves :
      (host : Host) (snapshot : JobRecord) (plan : ExperimentPlan) (trial count : ℕ)
      → reserve_attempt host snapshot plan trial count s ≡ ok s'
      → Step s s'
  completes :
      (host : Host) (job_id digest bytes : ℕ) (fits : Bool)
      → publish_completion host job_id digest bytes fits s ≡ ok s'
      → Step s s'

pub data Reach (s : Store) : Store → Type 0 where
  here : Reach s s
  next : {t u : Store} → Reach s t → Step t u → Reach s u

-- A new workspace.
abbrev pub empty_store : HostPolicy → Store
empty_store policy = record { policy = policy; plans = []; jobs = []; requested = 0; observed = 0 }
