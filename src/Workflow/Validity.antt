-- ===== src/Workflow/Validity.antt =====
-- What holds of a workspace between two transactions, and how a step may move it.
use coleman.Base.{
  ℕ, ◌+◌, ◌≤◌, ◌≡◌, Bool, false, ◌&&◌, ◌||◌, List, [], ◌∷◌, arith, ◌==◌, if◌then◌else◌, ok, err,
  length, All,
}
use coleman.Workflow.Records.{is_expired, ExperimentPlan, JobRecord, Store}
use coleman.Workflow.Rows.{find_plan, weigh, count_live}
use coleman.Workflow.Scheduler.{max_generation}
use coleman.Workflow.Evolution.{IsSound, Evolves}
use coleman.Workflow.Pairs.{Pairwise, Pairwise-weigh, Pairwise-All, Pairwise-length}
use coleman.Workflow.Claiming.{running_one, running_memory}

-- Two rows that the keys of the table forbid together.
abbrev pub clash : JobRecord → JobRecord → Bool
clash a b = (a.job_id == b.job_id) || ((a.owner == b.owner) && (a.request_id == b.request_id))

abbrev pub AllDistinct : List JobRecord → Type 0
AllDistinct [] = Unit
AllDistinct (job ∷ jobs) = All (λ other. clash job other ≡ false) jobs × AllDistinct jobs

-- The plan of a row is saved, for its owner and under its key.
abbrev pub IsPlanned : List ExperimentPlan → JobRecord → Type 0
IsPlanned plans job = (plan : ExperimentPlan) × (find_plan plans job.plan_id job.owner ≡ ok plan)

-- The output bytes that the plan of a job reserves.
abbrev pub plan_bytes : List ExperimentPlan → JobRecord → ℕ
plan_bytes plans job = elim (find_plan plans job.plan_id job.owner) [
  | ok plan ↦ plan.max_output_bytes
  | err _ ↦ 0
]

abbrev pub retained_bytes : List ExperimentPlan → JobRecord → ℕ
retained_bytes plans job = if is_expired job.state then 0 else plan_bytes plans job

pub record IsValid (s : Store) : Type 0 where
  pub slots : length s.jobs ≤ s.policy.max_jobs
  pub queue : count_live s.jobs ≤ s.policy.max_running + s.policy.max_queued
  pub workers : weigh running_one s.jobs ≤ s.policy.max_running
  pub memory : weigh (running_memory s.plans) s.jobs ≤ s.policy.max_active_memory_bytes
  pub bytes : weigh (retained_bytes s.plans) s.jobs ≤ s.policy.max_retained_bytes
  pub sound : All IsSound s.jobs
  pub planned : All (IsPlanned s.plans) s.jobs
  pub distinct : AllDistinct s.jobs
  pub acknowledged : s.observed ≤ s.requested
  pub generations : s.requested ≤ max_generation

pub record Grows (job job' : JobRecord) : Type 0 where
  pub evolves : Evolves job job'
  pub sound : IsSound job → IsSound job'

-- A step on the rows in their places.
pub record Moves (s s' : Store) : Type 0 where
  pub same_policy : s'.policy ≡ s.policy
  pub same_plans : s'.plans ≡ s.plans
  pub rows : Pairwise Grows s.jobs s'.jobs
  pub queue : count_live s'.jobs ≤ s.policy.max_running + s.policy.max_queued
  pub workers : weigh running_one s'.jobs ≤ s.policy.max_running
  pub memory : weigh (running_memory s.plans) s'.jobs ≤ s.policy.max_active_memory_bytes
  pub acknowledged : s'.observed ≤ s'.requested
  pub generations : s'.requested ≤ max_generation

Grows-retained_bytes :
    (plans : List ExperimentPlan) (x y : JobRecord)
    → Grows x y
    → retained_bytes plans y ≤ retained_bytes plans x
Grows-retained_bytes plans x y g =
    rw (g.evolves.same_plan, g.evolves.same_owner) (ground (arith, g.evolves.expired_kept))

Grows-clash : (a x y : JobRecord) → Grows x y → clash a x ≡ false → clash a y ≡ false
Grows-clash a x y g h = rw (g.evolves.same_id, g.evolves.same_owner, g.evolves.same_request) h

Grows-clash_left :
    (x y : JobRecord)
    → Grows x y
    → (others : List JobRecord) → All (λ b. clash x b ≡ false) others
    → All (λ b. clash y b ≡ false) others
Grows-clash_left x y g others h =
    rw (g.evolves.same_id, g.evolves.same_owner, g.evolves.same_request) h

Pairwise-AllDistinct :
    (xs ys : List JobRecord) → Pairwise Grows xs ys → AllDistinct xs → AllDistinct ys
Pairwise-AllDistinct [] [] p d = tt
Pairwise-AllDistinct [] (y ∷ ys) p d = elim p [ ]
Pairwise-AllDistinct (x ∷ xs) [] p d = elim p [ ]
Pairwise-AllDistinct (x ∷ xs) (y ∷ ys) p d = (
  Grows-clash_left x y p.0 ys (
      Pairwise-All Grows (λ b. clash x b ≡ false) (λ b. clash x b ≡ false) (Grows-clash x) xs ys p.1
        d.0),
  Pairwise-AllDistinct xs ys p.1 d.1,
)

pub Moves-IsValid : (s s' : Store) → Moves s s' → IsValid s → IsValid s'
Moves-IsValid s s' m v =
    let limit : weigh (retained_bytes s.plans) s'.jobs ≤ s.policy.max_retained_bytes = omega (
      arith,
      v.bytes,
      Pairwise-weigh Grows (retained_bytes s.plans) (retained_bytes s.plans)
          (Grows-retained_bytes s.plans) s.jobs s'.jobs m.rows,
    ) in
    let planned : All (IsPlanned s.plans) s'.jobs =
      Pairwise-All Grows (IsPlanned s.plans) (IsPlanned s.plans)
        (λ x y g p. rw (g.evolves.same_plan, g.evolves.same_owner) p) s.jobs s'.jobs m.rows
        v.planned in
    record {
      slots = rw (m.same_policy, Pairwise-length Grows s.jobs s'.jobs m.rows) v.slots;
      queue = rw m.same_policy m.queue;
      workers = rw m.same_policy m.workers;
      memory = rw (m.same_policy, m.same_plans) m.memory;
      bytes = rw (m.same_policy, m.same_plans) limit;
      sound = Pairwise-All Grows IsSound IsSound (λ x y g. g.sound) s.jobs s'.jobs m.rows v.sound;
      planned = rw m.same_plans planned;
      distinct = Pairwise-AllDistinct s.jobs s'.jobs m.rows v.distinct;
      acknowledged = m.acknowledged;
      generations = m.generations;
    }
