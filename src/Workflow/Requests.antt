-- ===== src/Workflow/Requests.antt =====
-- The two ways in which `execute` returns.
use coleman.Workflow.Rows.{find_row}
use coleman.Workflow.Moving.{after_load_jobs}
use coleman.Workflow.Service.{new_job, admit}
use coleman.Base.{some, ◌>>◌, none, raise_if, Option-cases}
use coleman.Workflow.Moving.{after_load_jobs}
use coleman.Workflow.Rows.{find_row}
use coleman.Workflow.Service.{new_job, admit}
use coleman.Base.{◌⊎◌, Bool, ◌&&◌, ◌==◌, raise_if, Option-cases}
use coleman.Base.{ℕ, ◌≡◌, inl, inr, not, arith, ok, raise_if}
use coleman.Workflow.Records.{ExperimentPlan, ExecutePlan, JobRecord, Store, Host, WorkflowError}
use coleman.Workflow.Rows.{find_row}
use coleman.Workflow.Service.{new_job, admit}
use coleman.Workflow.Moving.{after_load_jobs}
use coleman.Workflow.Admission.{Admitted, admit_new-Admitted}

abbrev pub asks : ℕ → ExecutePlan → JobRecord → Bool
asks owner request job = (job.owner == owner) && (job.request_id == request.request_id)

-- The request has its job.
pub record Repeated (owner : ℕ) (host : Host) (request : ExecutePlan) (s s' : Store) (job_id : ℕ)
    : Type 0 where
  pub existing : JobRecord
  pub found : find_row (asks owner request) s.jobs ≡ some existing
  pub same_digest : existing.request_digest ≡ host.fingerprint request
  pub store : s' ≡ s
  pub same_id : job_id ≡ existing.job_id

-- The request has none, and gets a new one.
pub record Entered (owner : ℕ) (host : Host) (request : ExecutePlan) (s s' : Store) (job_id : ℕ)
    : Type 0 where
  pub missing : find_row (asks owner request) s.jobs ≡ none
  pub plan : ExperimentPlan
  pub admitted : Admitted s s' (new_job owner host request plan) plan
  pub same_id : job_id ≡ host.new_id

repeated :
    (owner : ℕ) (host : Host) (request : ExecutePlan) (s s' : Store) (job_id : ℕ)
    (existing : JobRecord)
    → find_row (asks owner request) s.jobs ≡ some existing
    → ◌>>◌ {Y = Store × ℕ}
        (raise_if
          (not (existing.request_digest == host.fingerprint request))
          WorkflowError.key_conflict)
        (ok (s, existing.job_id))
      ≡ ok (s', job_id)
    → Repeated owner host request s s' job_id
repeated owner host request s s' job_id existing found h =
    let digest : existing.request_digest ≡ host.fingerprint request = ground (arith, h) in
    let result : (s' ≡ s) × (job_id ≡ existing.job_id) = ground (arith, h) in
    record {
      existing = existing;
      found = found;
      same_digest = digest;
      store = result.0;
      same_id = result.1;
    }

pub admit-cases :
    (owner : ℕ) (host : Host) (request : ExecutePlan) (s s' : Store) (job_id : ℕ)
    → admit owner host request s ≡ ok (s', job_id)
    → Repeated owner host request s s' job_id ⊎ Entered owner host request s s' job_id
unfolding admit
admit-cases owner host request s s' job_id h =
    let k = after_load_jobs s _ h in
    elim (Option-cases (find_row (asks owner request) s.jobs)) [
      | inl new ↦
          let (plan, admitted, same_id) =
            admit_new-Admitted owner host request s s' job_id (rw new at k) in
          inr record { missing = new; plan = plan; admitted = admitted; same_id = same_id }
      | inr (existing, old) ↦
          inl (repeated owner host request s s' job_id existing old (rw old at k))
    ]
