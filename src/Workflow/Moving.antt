-- ===== src/Workflow/Moving.antt =====
-- Every transaction on the rows is a move.
use coleman.Workflow.Service.{reconcile_row}
use coleman.Workflow.Evolution.{Evolves-trans}
use coleman.Workflow.Pairs.{Pairwise-trans}
use coleman.Workflow.Scheduler.{Claims, claim_rows, count_active, active_memory}
use coleman.Workflow.Claiming.{
  Claimed, claim_rows-Claimed, claim_rows-Accounts, reconciled-count_active,
  reconciled-active_memory,
}
use coleman.Base.{
  ◌>>=◌, map_result, subst, inl, inr, ltb, Bool-cases, >>=-eq-ok, ok-injective, ℕ, ◌+◌, ◌≤◌, ◌<◌,
  ◌≡◌, refl, ◌⊎◌, Bool, List, arith, if◌then◌else◌, Result, ok,
}
use coleman.Workflow.Records.{is_live, ExperimentPlan, JobRecord, Store, Host, WorkflowError}
use coleman.Workflow.Rows.{update_row, load_jobs, count_live}
use coleman.Workflow.Service.{update_owned}
use coleman.Workflow.Worker.{update_job}
use coleman.Workflow.Pairs.{
  Pairwise, Pairwise-weigh, Pairwise-mono, update_row-Pairwise, update_row-weigh,
  map_result-Pairwise,
}
use coleman.Workflow.Rowwise.{Quiet, Calm, Calm-refl, reconcile_row-Calm}
use coleman.Workflow.Claiming.{Claimed, running_one, running_memory}
use coleman.Workflow.Validity.{IsValid, Moves, Grows}

-- `store.jobs` returns the rows, or raises.
pub load_jobs_eq : (s : Store) (jobs : List JobRecord) → load_jobs s ≡ ok jobs → jobs ≡ s.jobs
unfolding load_jobs
load_jobs_eq s jobs h = ground arith

-- A body that reads the rows has them from the store.
pub after_load_jobs {ℓ} :
    {A : Type ℓ} (s : Store) (body : List JobRecord → Result WorkflowError A) {a : A}
    → (load_jobs s >>= body) ≡ ok a
    → body s.jobs ≡ ok a
after_load_jobs s body {a} h =
    let (jobs, e, k) = >>=-eq-ok (load_jobs s) body h in
    subst (λ x. body x ≡ ok a) (load_jobs_eq s jobs e) k

abbrev pub live_one : JobRecord → ℕ
live_one job = if is_live job.state then 1 else 0

Quiet-running_one : (x y : JobRecord) → Quiet x y → running_one y ≤ running_one x
Quiet-running_one x y q = ground arith

Quiet-running_memory :
    (plans : List ExperimentPlan) (x y : JobRecord)
    → Quiet x y
    → running_memory plans y ≤ running_memory plans x
Quiet-running_memory plans x y q = rw (q.evolves.same_plan, q.evolves.same_owner) (ground arith)

Calm-live_one : (x y : JobRecord) → Calm x y → live_one y ≤ live_one x
Calm-live_one x y c = ground arith

module _ (s : Store) (v : IsValid s) where
  -- Rows that become live only below the capacity, and none that starts.
  Quiet-Moves :
      (rows : List JobRecord)
      → Pairwise Quiet s.jobs rows
      → count_live rows ≤ s.policy.max_running + s.policy.max_queued
      → Moves s (record s { jobs = rows })
  Quiet-Moves rows p live = record {
    same_policy = refl;
    same_plans = refl;
    rows =
        Pairwise-mono Quiet Grows (λ x y q. record { evolves = q.evolves; sound = q.sound }) s.jobs
          rows p;
    queue = live;
    workers = omega (
      arith,
      v.workers,
      Pairwise-weigh Quiet running_one running_one Quiet-running_one s.jobs rows p,
    );
    memory = omega (
      arith,
      v.memory,
      Pairwise-weigh Quiet (running_memory s.plans) (running_memory s.plans)
          (Quiet-running_memory s.plans) s.jobs rows p,
    );
    acknowledged = v.acknowledged;
    generations = v.generations;
  }

  pub Calm-Moves :
      (rows : List JobRecord) → Pairwise Calm s.jobs rows → Moves s (record s { jobs = rows })
  Calm-Moves rows p =
      Quiet-Moves rows (Pairwise-mono Calm Quiet (λ x y c. c.quiet) s.jobs rows p)
        (omega (arith, v.queue, Pairwise-weigh Calm live_one live_one Calm-live_one s.jobs rows p))

  -- The body of an update that may bring its row back to the queue, below the capacity only.
  abbrev pub Revives : (JobRecord → Result WorkflowError JobRecord) → Type 0
  Revives body =
      (x y : JobRecord)
      → body x ≡ ok y
      → Quiet x y × (Calm x y ⊎ (count_live s.jobs < s.policy.max_running + s.policy.max_queued))

  pub Calm-Revives :
      (body : JobRecord → Result WorkflowError JobRecord)
      → ((x y : JobRecord) → body x ≡ ok y → Calm x y)
      → Revives body
  Calm-Revives body b x y e = ((b x y e).quiet, inl (b x y e))

  update_row-count_live :
      (test : JobRecord → Bool) (body : JobRecord → Result WorkflowError JobRecord)
      → Revives body
      → (rows : List JobRecord) → update_row test body s.jobs ≡ ok rows
      → count_live rows ≤ s.policy.max_running + s.policy.max_queued
  update_row-count_live test body b rows h =
      elim (Bool-cases (ltb (count_live s.jobs) (s.policy.max_running + s.policy.max_queued))) [
        | inl room ↦
            let one = update_row-weigh 1 live_one test body (λ x y e. ground arith) s.jobs rows h in
            ground arith
        | inr full ↦
            let calm : (x y : JobRecord) → body x ≡ ok y → live_one y ≤ live_one x + 0 = λ x y e.
              elim (b x y e).1 [
                | inl c ↦ omega (arith, Calm-live_one x y c)
                | inr room ↦ ground arith
              ] in
            let same = update_row-weigh 0 live_one test body calm s.jobs rows h in
            omega (arith, same, v.queue)
      ]

  update_row-Moves :
      (test : JobRecord → Bool) (body : JobRecord → Result WorkflowError JobRecord)
      → Revives body
      → (rows : List JobRecord) → update_row test body s.jobs ≡ ok rows
      → Moves s (record s { jobs = rows })
  update_row-Moves test body b rows h =
      let quiet =
        update_row-Pairwise Quiet test body (λ x. (Calm-refl x).quiet) (λ x y e. (b x y e).0) s.jobs
          rows h in
      Quiet-Moves rows quiet (update_row-count_live test body b rows h)

  pub update_owned-Moves :
      (owner job_id : ℕ) (body : JobRecord → Result WorkflowError JobRecord)
      → Revives body
      → (s' : Store) → update_owned owner job_id body s ≡ ok s'
      → Moves s s'
  unfolding update_owned
  update_owned-Moves owner job_id body b s' h =
      let k2 = after_load_jobs s _ h in
      let (rows, f, q) = >>=-eq-ok (update_row _ body s.jobs) _ k2 in
      subst (Moves s) (ok-injective q) (update_row-Moves _ body b rows f)

  pub update_job-Moves :
      (job_id : ℕ) (body : JobRecord → Result WorkflowError JobRecord)
      → Revives body
      → (s' : Store) → update_job job_id body s ≡ ok s'
      → Moves s s'
  unfolding update_job
  update_job-Moves job_id body b s' h =
      let k2 = after_load_jobs s _ h in
      let (rows, f, q) = >>=-eq-ok (update_row _ body s.jobs) _ k2 in
      subst (Moves s) (ok-injective q) (update_row-Moves _ body b rows f)

Calm-Claimed : (x y z : JobRecord) → Calm x y → Claimed y z → Claimed x z
Calm-Claimed x y z c d = record {
  evolves = Evolves-trans c.quiet.evolves d.evolves;
  sound = λ k. d.sound (c.quiet.sound k);
  no_revival = λ k. c.no_revival (d.no_revival k);
  no_requeue = λ k. c.no_requeue (d.no_requeue k);
}

-- The rows after a pass of the coordinator: those that run do so within the host's limits.
pub claimed-Moves :
    (s : Store)
    → IsValid s
    → (host : Host) (memory : ℕ) (rows : List JobRecord) (claims : Claims)
    → map_result (reconcile_row host) s.jobs ≡ ok rows
    → active_memory host s s.jobs ≡ ok memory
    → claim_rows host s (count_active host s.jobs) memory rows ≡ ok claims
    → Moves s (record s { jobs = claims.jobs; observed = s.requested })
claimed-Moves s v host memory rows claims f g l =
    let calm = map_result-Pairwise Calm _ (reconcile_row-Calm host) s.jobs rows f in
    let started = claim_rows-Claimed host s _ memory rows claims l in
    let both =
      Pairwise-trans Calm Claimed Claimed Calm-Claimed s.jobs rows claims.jobs calm started in
    let accounts = claim_rows-Accounts host s _ memory rows claims l in
    let settled = Calm-Moves s v rows calm in
    let active = reconciled-count_active host s.jobs rows f in
    let bytes = reconciled-active_memory host s s.jobs rows memory f g in
    record {
      same_policy = refl;
      same_plans = refl;
      rows =
          Pairwise-mono Claimed Grows (λ x y c. record { evolves = c.evolves; sound = c.sound })
            s.jobs claims.jobs both;
      queue = omega (
        arith,
        v.queue,
        Pairwise-weigh Claimed live_one live_one (λ x y c. ground arith) s.jobs claims.jobs both,
      );
      workers = elim accounts.workers_limit [
        | inl same ↦ omega (arith, accounts.workers, settled.workers, same)
        | inr under ↦ omega (arith, accounts.workers, active, under)
      ];
      memory = elim accounts.memory_limit [
        | inl same ↦ omega (arith, accounts.reserved, settled.memory, same)
        | inr under ↦ omega (arith, accounts.reserved, bytes, under)
      ];
      acknowledged = omega arith;
      generations = v.generations;
    }
