-- ===== src/Workflow/Transactions.antt =====
-- Each transaction on the rows, one by one, is a move.
use coleman.Workflow.Service.{reconcile_row}
use coleman.Workflow.Evolution.{Evolves-refl}
use coleman.Workflow.Pairs.{Pairwise-refl}
use coleman.Workflow.Scheduler.{
  claim_rows, count_active, active_memory, check_progress, max_generation,
}
use coleman.Workflow.Worker.{Change, transition, reserve_attempt, publish_completion}
use coleman.Workflow.Scheduler.{request_observation, schedule}
use coleman.Workflow.Service.{reconcile, cancel, requeue, evaluate, cleanup, expire_row}
use coleman.Base.{
  sym, ap, Option, map_result, subst, inl, inr, >>=-eq-ok, ok-injective, ℕ, ◌+◌, ◌≤◌, ◌≡◌, refl,
  ◌⊎◌, Bool, List, arith, ok,
}
use coleman.Workflow.Records.{ExperimentPlan, JobRecord, Store, Host}
use coleman.Workflow.Rows.{load_jobs}
use coleman.Workflow.Service.{reconcile, cancel, requeue, evaluate, cleanup}
use coleman.Workflow.Scheduler.{request_observation, schedule, max_generation, check_progress}
use coleman.Workflow.Worker.{Change, transition, reserve_attempt, publish_completion}
use coleman.Workflow.Pairs.{map_result-Pairwise}
use coleman.Workflow.Rowwise.{
  Calm, Calm-refl, reconcile_row-Calm, cancel_row-Calm, expire_row-Calm, requeue_row-Quiet,
  evaluate_row-Quiet, transition_row-Calm, reserve_row-Calm, complete_row-Calm,
}
use coleman.Workflow.Validity.{IsValid, Moves, Grows}
use coleman.Workflow.Moving.{
  after_load_jobs, Calm-Moves, update_owned-Moves, update_job-Moves, Calm-Revives, claimed-Moves,
}

request_observation-cases :
    (s s' : Store) (generation : Option ℕ)
    → s.requested ≤ max_generation
    → request_observation s ≡ ok (s', generation)
    → (s' ≡ s)
      ⊎ ((s' ≡ record s { requested = s.requested + 1 }) × (s.requested + 1 ≤ max_generation))
unfolding request_observation load_jobs check_progress
request_observation-cases s s' generation b h = ground arith

-- Each transaction on the rows, one by one.
module _ (s : Store) (v : IsValid s) (s' : Store) where
  pub reconcile-Moves :
      (owner : ℕ) (host : Host) (job_id : ℕ) → reconcile owner host job_id s ≡ ok s' → Moves s s'
  unfolding reconcile
  reconcile-Moves owner host job_id h =
      update_owned-Moves s v owner job_id _ (Calm-Revives s v _ (reconcile_row-Calm host)) s' h

  pub cancel-Moves :
      (owner : ℕ) (host : Host) (job_id : ℕ) → cancel owner host job_id s ≡ ok s' → Moves s s'
  unfolding cancel
  cancel-Moves owner host job_id h =
      update_owned-Moves s v owner job_id _ (Calm-Revives s v _ (cancel_row-Calm host)) s' h

  pub requeue-Moves :
      (owner : ℕ) (host : Host) (job_id : ℕ) → requeue owner host job_id s ≡ ok s' → Moves s s'
  unfolding requeue
  requeue-Moves owner host job_id h =
      update_owned-Moves s v owner job_id _ (requeue_row-Quiet owner host s) s' h

  pub evaluate-Moves :
      (owner : ℕ) (host : Host) (job_id : ℕ) → evaluate owner host job_id s ≡ ok s' → Moves s s'
  unfolding evaluate
  evaluate-Moves owner host job_id h =
      update_owned-Moves s v owner job_id _ (evaluate_row-Quiet owner host s) s' h

  pub transition-Moves :
      (host : Host) (job_id : ℕ) (changes : Change)
      → transition host job_id changes s ≡ ok s'
      → Moves s s'
  unfolding transition
  transition-Moves host job_id changes h =
      update_job-Moves s v job_id _ (Calm-Revives s v _ (transition_row-Calm host changes)) s' h

  pub reserve_attempt-Moves :
      (host : Host) (snapshot : JobRecord) (plan : ExperimentPlan) (trial count : ℕ)
      → reserve_attempt host snapshot plan trial count s ≡ ok s'
      → Moves s s'
  unfolding reserve_attempt
  reserve_attempt-Moves host snapshot plan trial count h =
      update_job-Moves s v snapshot.job_id _
        (Calm-Revives s v _ (reserve_row-Calm host snapshot plan trial count)) s' h

  pub publish_completion-Moves :
      (host : Host) (job_id digest bytes : ℕ) (fits : Bool)
      → publish_completion host job_id digest bytes fits s ≡ ok s'
      → Moves s s'
  unfolding publish_completion
  publish_completion-Moves host job_id digest bytes fits h =
      update_job-Moves s v job_id _ (Calm-Revives s v _ (complete_row-Calm host digest bytes fits))
        s' h

  pub cleanup-Moves :
      (owner : ℕ) (host : Host) (ids : List ℕ) → cleanup owner host s ≡ ok (s', ids) → Moves s s'
  unfolding cleanup
  cleanup-Moves owner host ids h =
      let k2 = after_load_jobs s _ h in
      let (rows, f, q) = >>=-eq-ok (map_result (expire_row owner host _) s.jobs) _ k2 in
      let p = map_result-Pairwise Calm _ (expire_row-Calm owner host _) s.jobs rows f in
      subst (Moves s) (ap (λ x. x.0) (ok-injective q)) (Calm-Moves s v rows p)

  pub request_observation-Moves :
      (generation : Option ℕ) → request_observation s ≡ ok (s', generation) → Moves s s'
  request_observation-Moves generation h =
      let p =
        Pairwise-refl Grows (λ x. record { evolves = Evolves-refl x; sound = λ k. k }) s.jobs in
      elim (request_observation-cases s s' generation v.generations h) [
        | inl same ↦
            subst (Moves s) (sym same) (Calm-Moves s v s.jobs (Pairwise-refl Calm Calm-refl s.jobs))
        | inr (q, more) ↦ subst (Moves s) (sym q) record {
          same_policy = refl;
          same_plans = refl;
          rows = p;
          queue = v.queue;
          workers = v.workers;
          memory = v.memory;
          acknowledged = omega (arith, v.acknowledged);
          generations = more;
        }
      ]

  pub schedule-Moves :
      (host : Host) (pending : Bool) → schedule host s ≡ ok (s', pending) → Moves s s'
  unfolding schedule
  schedule-Moves host pending h =
      let k2 = after_load_jobs s _ h in
      let (rows, f, k3) = >>=-eq-ok (map_result (reconcile_row host) s.jobs) _ k2 in
      let (memory, g, k4) = >>=-eq-ok (active_memory host s s.jobs) _ k3 in
      let (claims, l, k5) =
        >>=-eq-ok (claim_rows host s (count_active host s.jobs) memory rows) _ k4 in
      let (_, _, q) = >>=-eq-ok (check_progress s) _ k5 in
      subst (Moves s) (ap (λ x. x.0) (ok-injective q))
        (claimed-Moves s v host memory rows claims f g l)
