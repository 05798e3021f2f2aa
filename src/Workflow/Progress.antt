-- ===== src/Workflow/Progress.antt =====
-- What a pass of the coordinator achieves.
use coleman.Base.{
  ℕ, ◌+◌, ◌≤◌, ◌≡◌, refl, sym, ap, subst, Bool, false, ◌||◌, not, List, [], ◌∷◌, arith, ◌==◌,
  if◌then◌else◌, ok, map_result, >>=-eq-ok, ok-injective,
}
use coleman.Workflow.Records.{JobRecord, Store, Host, is_queued}
use coleman.Workflow.Rows.{validated, weigh, count_live}
use coleman.Workflow.Service.{reconcile_row}
use coleman.Workflow.Scheduler.{
  any_queued, check_progress, Claims, claim_rows, count_active, active_memory, schedule,
}
use coleman.Workflow.Pairs.{Pairwise-weigh, map_result-cases}
use coleman.Workflow.Claiming.{Claimed, claim_rows-Claimed, claim_rows-Accounts}
use coleman.Workflow.Moving.{after_load_jobs, live_one}

abbrev pub queued_one : JobRecord → ℕ
queued_one job = if is_queued job.state then 1 else 0

-- The number of rows that wait.
abbrev pub count_queued : List JobRecord → ℕ
count_queued jobs = weigh queued_one jobs

-- `schedule`, taken apart.
pub record Pass (host : Host) (s s' : Store) (pending : Bool) : Type 0 where
  pub rows : List JobRecord
  pub memory : ℕ
  pub claims : Claims
  pub reconciled : map_result (reconcile_row host) s.jobs ≡ ok rows
  pub reserved : active_memory host s s.jobs ≡ ok memory
  pub claimed : claim_rows host s (count_active host s.jobs) memory rows ≡ ok claims
  pub store : s' ≡ record s { jobs = claims.jobs; observed = s.requested }
  pub left : pending ≡ (not (claims.active == 0) || any_queued s.jobs)

pub schedule-Pass :
    (host : Host) (s s' : Store) (pending : Bool)
    → schedule host s ≡ ok (s', pending)
    → Pass host s s' pending
unfolding schedule
schedule-Pass host s s' pending h =
    let (rows, f, k3) =
      >>=-eq-ok (map_result (reconcile_row host) s.jobs) _ (after_load_jobs s _ h) in
    let (memory, g, k4) = >>=-eq-ok (active_memory host s s.jobs) _ k3 in
    let (claims, l, k5) =
      >>=-eq-ok (claim_rows host s (count_active host s.jobs) memory rows) _ k4 in
    let (_, _, q) = >>=-eq-ok (check_progress s) _ k5 in
    let result = ok-injective q in
    record {
      rows = rows;
      memory = memory;
      claims = claims;
      reconciled = f;
      reserved = g;
      claimed = l;
      store = sym (ap (λ r. r.0) result);
      left = sym (ap (λ r. r.1) result);
    }

any_queued-count_queued : (jobs : List JobRecord) → any_queued jobs ≡ false → count_queued jobs ≡ 0
any_queued-count_queued [] h = refl
any_queued-count_queued (job ∷ jobs) h = ground (arith, any_queued-count_queued jobs)

-- A row that is live after reconciliation has a worker, or waits.
reconciled-count_live :
    (host : Host) (jobs rows : List JobRecord)
    → map_result (reconcile_row host) jobs ≡ ok rows
    → count_live rows ≤ count_active host jobs + count_queued jobs
unfolding reconcile_row validated
reconciled-count_live host [] rows h = ground arith
reconciled-count_live host (job ∷ jobs) rows h =
    let (row, rest, e, f, q) = map_result-cases (reconcile_row host) job jobs rows h in
    let ih = reconciled-count_live host jobs rest f in ground arith

-- A pass of the coordinator that reports that no work is pending leaves no row that is queued or
-- running.
pub schedule_retires :
    (host : Host) (s s' : Store) → schedule host s ≡ ok (s', false) → count_live s'.jobs ≡ 0
schedule_retires host s s' h =
    let p = schedule-Pass host s s' false h in
    let accounts =
      claim_rows-Accounts host s (count_active host s.jobs) p.memory p.rows p.claims p.claimed in
    let live = reconciled-count_live host s.jobs p.rows p.reconciled in
    let kept =
      Pairwise-weigh Claimed live_one live_one (λ x y c. ground arith) p.rows p.claims.jobs
        (claim_rows-Claimed host s _ p.memory p.rows p.claims p.claimed) in
    let none_queued : any_queued s.jobs ≡ false = ground (arith, p.left) in
    let zero_queued = any_queued-count_queued s.jobs none_queued in
    let zero_active : p.claims.active ≡ 0 = ground (arith, p.left) in
    let few : count_live p.claims.jobs ≡ 0 =
      omega (arith, kept, live, zero_queued, zero_active, accounts.more_workers) in
    subst (λ t. count_live t.jobs ≡ 0) (sym p.store) few
