-- ===== src/Workflow/Queue.antt =====
-- A pass of the coordinator over an idle workspace takes a job from the queue.
use coleman.Workflow.Progress.{schedule-Pass}
use coleman.Workflow.Pairs.{Pairwise, Pairwise-weigh, Pairwise-All, map_result-Pairwise}
use coleman.Workflow.Scheduler.{count_active, active_memory, schedule}
use coleman.Workflow.Service.{reconcile_row}
use coleman.Base.{ℕ, Bool, Bool-cases, ◌≡◌, subst, sym}
use coleman.Base.{
  ◌≤◌, ◌<◌, ◌≡◌, subst, inl, inr, true, false, List, [], ◌∷◌, arith, Bool-cases, ok, Result-cases,
  >>=-eq-ok, ok-injective, All,
}
use coleman.Workflow.Records.{ExperimentPlan, JobRecord, Store, Host, is_queued}
use coleman.Workflow.Rows.{validated, find_plan}
use coleman.Workflow.Service.{reconcile_row}
use coleman.Workflow.Scheduler.{
  Claim, Claims, claim_row, claim_rows, count_active, active_memory, schedule,
}
use coleman.Workflow.Pairs.{Pairwise, Pairwise-weigh, Pairwise-All, map_result-Pairwise}
use coleman.Workflow.Claiming.{Claimed, claim_rows-Claimed}
use coleman.Workflow.Progress.{schedule-Pass, queued_one, count_queued}

module _ (host : Host) (s : Store) where
  -- The lock of a queued job is free, and its plan fits the memory of the host.
  pub record IsStartable (job : JobRecord) : Type 0 where
    pub free : is_queued job.state ≡ true → host.is_lockable job.job_id ≡ true
    pub fits :
        (plan : ExperimentPlan)
        → find_plan s.plans job.plan_id job.owner ≡ ok plan
        → plan.max_memory_bytes ≤ s.policy.max_active_memory_bytes

  claim_row-count_queued :
      (job : JobRecord) (claim : Claim)
      → 1 ≤ s.policy.max_running
      → IsStartable job
      → claim_row host s 0 0 job ≡ ok claim
      → (is_queued claim.job.state ≡ false)
        × (is_queued job.state ≡ false → (claim.active ≡ 0) × (claim.memory ≡ 0))
  unfolding claim_row validated
  claim_row-count_queued job claim some_room startable h =
      elim (Result-cases (find_plan s.plans job.plan_id job.owner)) [
        | inl (plan, found) ↦
            let fits = startable.fits plan found in
            let free = startable.free in ground (arith, found, fits, free)
        | inr (why, missing) ↦ ground (arith, missing)
      ]

  claim_rows-count_queued :
      (jobs : List JobRecord) (claims : Claims)
      → 1 ≤ s.policy.max_running
      → All IsStartable jobs
      → 1 ≤ count_queued jobs
      → claim_rows host s 0 0 jobs ≡ ok claims
      → count_queued claims.jobs < count_queued jobs
  unfolding claim_rows
  claim_rows-count_queued [] claims room startable some_queued h = omega arith
  claim_rows-count_queued (job ∷ jobs) claims room startable some_queued h =
      let (claim, e, k) = >>=-eq-ok (claim_row host s 0 0 job) _ h in
      let (rest, f, q) = >>=-eq-ok (claim_rows host s claim.active claim.memory jobs) _ k in
      let (taken, untouched) = claim_row-count_queued job claim room startable.0 e in
      let others =
        Pairwise-weigh Claimed queued_one queued_one (λ x y c. ground arith) jobs rest.jobs
          (claim_rows-Claimed host s claim.active claim.memory jobs rest f) in
      let fewer : count_queued (claim.job ∷ rest.jobs) < count_queued (job ∷ jobs) =
        elim (Bool-cases (is_queued job.state)) [
          | inl queued ↦ ground (arith, taken, queued, others)
          | inr idle ↦
              let (zero_active, zero_memory) = untouched idle in
              let same =
                subst (λ m. claim_rows host s claim.active m jobs ≡ ok rest) zero_memory f in
              let ih =
                claim_rows-count_queued jobs rest room startable.1
                  (ground (arith, some_queued, idle))
                  (subst (λ a. claim_rows host s a 0 jobs ≡ ok rest) zero_active same) in
              ground (arith, taken, idle, ih)
        ] in
      subst (λ c. count_queued c.jobs < count_queued (job ∷ jobs)) (ok-injective q) fewer

  -- What reconciliation leaves alone.
  record Waits (job row : JobRecord) : Type 0 where
    same_id : row.job_id ≡ job.job_id
    same_owner : row.owner ≡ job.owner
    same_plan : row.plan_id ≡ job.plan_id
    queued : is_queued row.state ≡ is_queued job.state

  reconcile_row-Waits : (job row : JobRecord) → reconcile_row host job ≡ ok row → Waits job row
  unfolding reconcile_row validated
  reconcile_row-Waits job row h = ground arith

  Waits-IsStartable : (job row : JobRecord) → Waits job row → IsStartable job → IsStartable row
  Waits-IsStartable job row w h = record {
    free = rw (w.queued, w.same_id) h.free;
    fits = rw (w.same_plan, w.same_owner) h.fits;
  }

  rows-count_queued :
      (jobs rows : List JobRecord)
      → Pairwise Waits jobs rows
      → count_queued jobs ≤ count_queued rows
  rows-count_queued [] [] w = omega arith
  rows-count_queued [] (row ∷ rows) w = elim w [ ]
  rows-count_queued (job ∷ jobs) [] w = elim w [ ]
  rows-count_queued (job ∷ jobs) (row ∷ rows) w =
      let ih = rows-count_queued jobs rows w.1 in let same = w.0.queued in ground (arith, ih, same)

  idle-active_memory :
      (jobs : List JobRecord) (memory : ℕ)
      → count_active host jobs ≡ 0
      → active_memory host s jobs ≡ ok memory
      → memory ≡ 0
  unfolding active_memory
  idle-active_memory [] memory h e = ground arith
  idle-active_memory (job ∷ jobs) memory h e = elim (Bool-cases (host.is_active job.job_id)) [
    | inl on ↦ absurd (ground (arith, h, on))
    | inr off ↦
        let rest : count_active host jobs ≡ 0 = ground (arith, h, off) in
        idle-active_memory jobs memory rest (rw (off, active_memory) at e)
  ]

  -- Where the host runs at least one worker, none is active, a job waits, the locks of the waiting
  -- jobs are free and every found plan fits the memory of the host: a pass of the coordinator that
  -- returns leaves fewer jobs waiting.
  pub schedule_shortens_queue :
      (s' : Store) (pending : Bool)
      → 1 ≤ s.policy.max_running
      → count_active host s.jobs ≡ 0
      → 1 ≤ count_queued s.jobs
      → All IsStartable s.jobs
      → schedule host s ≡ ok (s', pending)
      → count_queued s'.jobs < count_queued s.jobs
  schedule_shortens_queue s' pending room idle some_queued startable h =
      let p = schedule-Pass host s s' pending h in
      let zero = idle-active_memory s.jobs p.memory idle p.reserved in
      let waits =
        map_result-Pairwise Waits (reconcile_row host) reconcile_row-Waits s.jobs p.rows
          p.reconciled in
      let more =
        Pairwise-weigh Waits queued_one queued_one (λ x y w. ground arith) s.jobs p.rows waits in
      let less = rows-count_queued s.jobs p.rows waits in
      let ready =
        Pairwise-All Waits IsStartable IsStartable Waits-IsStartable s.jobs p.rows waits
          startable in
      let start =
        subst (λ m. claim_rows host s (count_active host s.jobs) m p.rows ≡ ok p.claims) zero
          p.claimed in
      let run = subst (λ a. claim_rows host s a 0 p.rows ≡ ok p.claims) idle start in
      let fewer =
        claim_rows-count_queued p.rows p.claims room ready (omega (arith, less, some_queued)) run in
      let now : count_queued p.claims.jobs < count_queued s.jobs = omega (arith, fewer, more) in
      subst (λ t. count_queued t.jobs < count_queued s.jobs) (sym p.store) now
