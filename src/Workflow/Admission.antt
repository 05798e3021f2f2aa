-- ===== src/Workflow/Admission.antt =====
-- What `execute` adds to the table, and `plan` to the saved plans.
use coleman.Workflow.Records.{State}
use coleman.Workflow.Evolution.{Checked}
use coleman.Workflow.Service.{admit_new, is_incompatible, new_job}
use coleman.Base.{none, Result, raise_if}
use coleman.Workflow.Service.{admit_new, is_incompatible}
use coleman.Workflow.Service.{reserved_bytes, admission_limits, new_job}
use coleman.Base.{refl, leb, raise_if}
use coleman.Base.{
  ℕ, ◌+◌, ◌≤◌, ◌<◌, ◌≡◌, sym, ap, ◌∙◌, subst, inl, inr, false, ◌||◌, not, List, [], ◌∷◌, ◌++◌,
  arith, if◌then◌else◌, Bool-cases, ok, raise_if, >>=-eq-ok, ok-injective, length, length-append,
  All, All-append,
}
use coleman.Workflow.Records.{
  is_expired, is_running, is_live, State, ExperimentPlan, ExecutePlan, JobRecord, Store, Host,
  WorkflowError,
}
use coleman.Workflow.Rows.{validated, find_plan, weigh, count_live}
use coleman.Workflow.Service.{reserved_bytes, admission_limits, insert_job, new_job}
use coleman.Workflow.Evolution.{IsSound, validated-Checked}
use coleman.Workflow.Validity.{clash, AllDistinct, IsPlanned, retained_bytes, IsValid}
use coleman.Workflow.Claiming.{running_one, running_memory}

pub weigh-append :
    (w : JobRecord → ℕ) (jobs more : List JobRecord)
    → weigh w (jobs ++ more) ≡ weigh w jobs + weigh w more
weigh-append w [] more = omega arith
weigh-append w (job ∷ jobs) more = omega (arith, weigh-append w jobs more)

-- The keys of the table let a row in at its end only.
insert_job-cases :
    (job : JobRecord) (jobs rows : List JobRecord)
    → insert_job job jobs ≡ ok rows
    → (rows ≡ jobs ++ job ∷ []) × All (λ other. clash other job ≡ false) jobs
unfolding insert_job
insert_job-cases job [] rows h = (sym (ok-injective h), tt)
insert_job-cases job (old ∷ jobs) rows h =
    let (_, c, k) = >>=-eq-ok (raise_if (clash old job) WorkflowError.duplicate_row) _ h in
    let (rest, e, q) = >>=-eq-ok (insert_job job jobs) _ k in
    let (tail, apart) = insert_job-cases job jobs rest e in
    (sym (ok-injective q) ∙ ap (λ r. old ∷ r) tail, (ground (arith, c), apart))

AllDistinct-append :
    (job : JobRecord) (jobs : List JobRecord)
    → AllDistinct jobs
    → All (λ other. clash other job ≡ false) jobs
    → AllDistinct (jobs ++ job ∷ [])
AllDistinct-append job [] d a = (tt, tt)
AllDistinct-append job (x ∷ jobs) d a = (
  All-append (λ other. clash x other ≡ false) jobs (job ∷ []) d.0 (a.0, tt),
  AllDistinct-append job jobs d.1 a.1,
)

-- What admission counts is at least what the table retains.
reserved-retained_bytes :
    (host : Host) (plans : List ExperimentPlan) (jobs : List JobRecord) (n : ℕ)
    → reserved_bytes host plans jobs ≡ ok n
    → weigh (retained_bytes plans) jobs ≤ n
unfolding reserved_bytes
reserved-retained_bytes host plans [] n h = omega arith
reserved-retained_bytes host plans (job ∷ jobs) n h =
    elim (Bool-cases (not (is_expired job.state) || host.has_output job.job_id)) [
      | inl on ↦
          let (plan, g, k) =
            >>=-eq-ok (find_plan plans job.plan_id job.owner) _ (rw (on, reserved_bytes) at h) in
          let (rest, e, q) = >>=-eq-ok (reserved_bytes host plans jobs) _ k in
          let ih = reserved-retained_bytes host plans jobs rest e in ground arith
      | inr off ↦
          let ih = reserved-retained_bytes host plans jobs n (rw (off, reserved_bytes) at h) in
          ground arith
    ]

-- A row that is let in.
pub record Admitted (s s' : Store) (job : JobRecord) (plan : ExperimentPlan) : Type 0 where
  pub store : s' ≡ record s { jobs = s.jobs ++ job ∷ [] }
  pub found : find_plan s.plans job.plan_id job.owner ≡ ok plan
  pub slots : length s.jobs < s.policy.max_jobs
  pub queue : count_live s.jobs < s.policy.max_running + s.policy.max_queued
  pub bytes :
      weigh (retained_bytes s.plans) s.jobs + plan.max_output_bytes ≤ s.policy.max_retained_bytes
  pub sound : IsSound job
  pub idle : is_running job.state ≡ false
  pub apart : All (λ other. clash other job ≡ false) s.jobs

pub Admitted-IsValid :
    (s s' : Store) (job : JobRecord) (plan : ExperimentPlan)
    → Admitted s s' job plan
    → IsValid s
    → IsValid s'
Admitted-IsValid s s' job plan a v =
    let last = job ∷ [] in
    subst IsValid (sym a.store) record {
      slots = omega (arith, a.slots, length-append s.jobs last);
      queue =
          ground (arith, a.queue, weigh-append (λ j. if is_live j.state then 1 else 0) s.jobs last);
      workers = ground (arith, v.workers, a.idle, weigh-append running_one s.jobs last);
      memory = ground (arith, v.memory, a.idle, weigh-append (running_memory s.plans) s.jobs last);
      bytes = ground (arith, a.bytes, a.found, weigh-append (retained_bytes s.plans) s.jobs last);
      sound = All-append IsSound s.jobs last v.sound (a.sound, tt);
      planned = All-append (IsPlanned s.plans) s.jobs last v.planned ((plan, a.found), tt);
      distinct = AllDistinct-append job s.jobs v.distinct a.apart;
      acknowledged = v.acknowledged;
      generations = v.generations;
    }

admission_limits-cases :
    (host : Host) (s : Store) (plan : ExperimentPlan) {u : Unit {0}}
    → admission_limits host s s.jobs plan ≡ ok u
    → (length s.jobs < s.policy.max_jobs)
      × (count_live s.jobs < s.policy.max_running + s.policy.max_queued)
      × (weigh (retained_bytes s.plans) s.jobs + plan.max_output_bytes
          ≤ s.policy.max_retained_bytes)
unfolding admission_limits
admission_limits-cases host s plan h =
    let (_, slots, k) = >>=-eq-ok (raise_if (leb s.policy.max_jobs (length s.jobs)) _) _ h in
    let (_, queue, k2) =
      >>=-eq-ok (raise_if (leb (s.policy.max_running + s.policy.max_queued) (count_live s.jobs)) _)
        _ k in
    let (n, reserved, k3) = >>=-eq-ok (reserved_bytes host s.plans s.jobs) _ k2 in
    let retained = reserved-retained_bytes host s.plans s.jobs n reserved in
    (ground (arith, slots), ground (arith, queue), ground (arith, retained, k3))

-- The row that the insertion adds is the new job.
insert_job-Admitted :
    (s s' : Store) (new job : JobRecord) (plan : ExperimentPlan) (rows : List JobRecord)
    (job_id : ℕ)
    → Checked new job
    → new.state ≡ State.queued
    → new.result_digest ≡ none
    → find_plan s.plans new.plan_id new.owner ≡ ok plan
    → (length s.jobs < s.policy.max_jobs)
      × (count_live s.jobs < s.policy.max_running + s.policy.max_queued)
      × (weigh (retained_bytes s.plans) s.jobs + plan.max_output_bytes
          ≤ s.policy.max_retained_bytes)
    → insert_job job s.jobs ≡ ok rows
    → ◌≡◌ {A = Result WorkflowError (Store × ℕ)}
        (ok (record s { jobs = rows }, job.job_id))
        (ok (s', job_id))
    → Admitted s s' new plan × (job_id ≡ new.job_id)
insert_job-Admitted s s' new job plan rows job_id c queued unpublished found limits inserts q =
    let (end, apart) = insert_job-cases job s.jobs rows inserts in
    let result = ok-injective q in
    let rows_new : rows ≡ s.jobs ++ new ∷ [] = end ∙ ap (λ j. s.jobs ++ j ∷ []) c.same in
    (
      record {
        store = sym (ap (λ r. r.0) result) ∙ ap (λ r. record s { jobs = r }) rows_new;
        found = found;
        slots = limits.0;
        queue = limits.1;
        bytes = limits.2;
        sound = ground (arith, c, queued, unpublished);
        idle = rw queued refl;
        apart = subst (λ j. All (λ other. clash other j ≡ false) s.jobs) c.same apart;
      },
      sym (ap (λ r. r.1) result) ∙ ap (λ j. j.job_id) c.same,
    )

pub admit_new-Admitted :
    (owner : ℕ) (host : Host) (request : ExecutePlan) (s s' : Store) (job_id : ℕ)
    → admit_new owner host request s s.jobs ≡ ok (s', job_id)
    → (plan : ExperimentPlan) × Admitted s s' (new_job owner host request plan) plan
      × (job_id ≡ host.new_id)
unfolding admit_new
admit_new-Admitted owner host request s s' job_id h =
    let (plan, found, k) = >>=-eq-ok (find_plan s.plans request.plan_id owner) _ h in
    let (_, _, k2) = >>=-eq-ok (raise_if (is_incompatible host plan) _) _ k in
    let (_, limits, k3) = >>=-eq-ok (admission_limits host s s.jobs plan) _ k2 in
    let (job, checks, k4) = >>=-eq-ok (validated (new_job owner host request plan)) _ k3 in
    let (rows, inserts, q) = >>=-eq-ok (insert_job job s.jobs) _ k4 in
    let (admitted, same_id) =
      insert_job-Admitted s s' (new_job owner host request plan) job plan rows job_id
        (validated-Checked (new_job owner host request plan) checks) refl refl found
        (admission_limits-cases host s plan limits) inserts q in
    (plan, admitted, same_id)
