-- ===== src/Workflow/Safety.antt =====
-- Every workspace that transactions lead to is valid.
use coleman.Base.{
  ℕ, ◌≡◌, refl, sym, subst, ◌⊎◌, inl, inr, some, List, [], ◌∷◌, ◌++◌, arith, Option-cases, ok, All,
}
use coleman.Workflow.Records.{HostPolicy, ExperimentPlan, JobRecord, Store}
use coleman.Workflow.Rows.{plan_row, find_plan, weigh}
use coleman.Workflow.Service.{save_plan}
use coleman.Workflow.Steps.{Step, Reach, empty_store}
use coleman.Workflow.Claiming.{running_memory}
use coleman.Workflow.Validity.{IsPlanned, retained_bytes, IsValid, Moves-IsValid}
use coleman.Workflow.Admission.{Admitted-IsValid}
use coleman.Workflow.Effects.{Effect, Step_effect}

-- A saved plan stays where it is found.
plan_row-append :
    (plan_id owner : ℕ) (plans more : List ExperimentPlan) (plan : ExperimentPlan)
    → plan_row plan_id owner plans ≡ some plan
    → plan_row plan_id owner (plans ++ more) ≡ some plan
plan_row-append plan_id owner [] more plan h = cc
plan_row-append plan_id owner (x ∷ plans) more plan h =
    ground (arith, plan_row-append plan_id owner plans more plan)

find_plan-append :
    (plans more : List ExperimentPlan) (plan_id owner : ℕ) (plan : ExperimentPlan)
    → find_plan plans plan_id owner ≡ ok plan
    → find_plan (plans ++ more) plan_id owner ≡ ok plan
unfolding find_plan
find_plan-append plans more plan_id owner plan h =
    elim (Option-cases (plan_row plan_id owner plans)) [
      | inl missing ↦ absurd (ground arith)
      | inr (row, found) ↦
          let k = rw (found, find_plan) at h in
          rw (plan_row-append plan_id owner plans more row found, find_plan) k
    ]

module _ (plans more : List ExperimentPlan) where
  IsPlanned-append :
      (jobs : List JobRecord) → All (IsPlanned plans) jobs → All (IsPlanned (plans ++ more)) jobs
  IsPlanned-append [] h = tt
  IsPlanned-append (job ∷ jobs) h = (
    (h.0.0, find_plan-append plans more job.plan_id job.owner h.0.0 h.0.1),
    IsPlanned-append jobs h.1,
  )

  weigh-append_plans :
      (jobs : List JobRecord)
      → All (IsPlanned plans) jobs
      → (weigh (running_memory (plans ++ more)) jobs ≡ weigh (running_memory plans) jobs)
        × (weigh (retained_bytes (plans ++ more)) jobs ≡ weigh (retained_bytes plans) jobs)
  weigh-append_plans [] h = (refl, refl)
  weigh-append_plans (job ∷ jobs) h =
      let was = h.0.1 in
      let stays = find_plan-append plans more job.plan_id job.owner h.0.0 was in
      let ih = weigh-append_plans jobs h.1 in
      (ground (arith, was, stays, ih.0), ground (arith, was, stays, ih.1))

pub save_plan-cases :
    (plan : ExperimentPlan) (s s' : Store)
    → save_plan plan s ≡ ok s'
    → (s' ≡ s) ⊎ (s' ≡ record s { plans = s.plans ++ plan ∷ [] })
unfolding save_plan
save_plan-cases plan s s' h = ground arith

save_plan-IsValid :
    (plan : ExperimentPlan) (s s' : Store) → save_plan plan s ≡ ok s' → IsValid s → IsValid s'
save_plan-IsValid plan s s' h v = elim (save_plan-cases plan s s' h) [
  | inl same ↦ rw same v
  | inr more ↦
      let sums = weigh-append_plans s.plans (plan ∷ []) s.jobs v.planned in
      rw more record {
        slots = v.slots;
        queue = v.queue;
        workers = v.workers;
        memory = rw sums.0 v.memory;
        bytes = rw sums.1 v.bytes;
        sound = v.sound;
        planned = IsPlanned-append s.plans (plan ∷ []) s.jobs v.planned;
        distinct = v.distinct;
        acknowledged = v.acknowledged;
        generations = v.generations;
      }
]

pub Step-IsValid : {s s' : Store} → Step s s' → IsValid s → IsValid s'
Step-IsValid {s} {s'} step v = elim (Step_effect step v) [
  | Effect.saved plan h ↦ save_plan-IsValid plan s s' h v
  | Effect.repeated same ↦ subst IsValid (sym same) v
  | Effect.entered job plan a ↦ Admitted-IsValid s s' job plan a v
  | Effect.moved m ↦ Moves-IsValid s s' m v
]

pub Reach-IsValid : {s t : Store} → Reach s t → IsValid s → IsValid t
Reach-IsValid Reach.here v = v
Reach-IsValid (Reach.next r step) v = Step-IsValid step (Reach-IsValid r v)

-- Every workspace that transactions of the service, the coordinator and the workers lead to, in
-- any order and with any host, from one with a policy and no rows is valid: at most `max_jobs`
-- rows, with distinct identities and distinct requests of an owner; live rows within the running
-- and queued capacity; rows that run, and the memory of their plans, within the limits of the
-- host; the output bytes that rows retain within theirs; counters within their bounds; a result on
-- every completed row and on no row that is neither completed nor expired; a saved plan for every
-- row; and no generation observed that was not requested.
pub Reach-empty_store : (policy : HostPolicy) (s : Store) → Reach (empty_store policy) s → IsValid s
Reach-empty_store policy s r = Reach-IsValid r record {
  slots = omega arith;
  queue = omega arith;
  workers = omega arith;
  memory = omega arith;
  bytes = omega arith;
  sound = tt;
  planned = tt;
  distinct = tt;
  acknowledged = omega arith;
  generations = omega arith;
}
