-- ===== src/Bandit/Arms.antt =====
-- coleman/bandit/base.py, dynamic.py and metric_bandit.py. Names and texts are numbers, a duration
-- is a number of ticks. The left join and the sort of a frame, the text of a list of results and the
-- evaluation metric are parameters.
use coleman.Base.{
  ℕ, zero, suc, Option, none, some, List, [], ◌∷◌, ◌++◌, map, if◌then◌else◌, Result, ok, err,
  length, is_empty,
}
use coleman.Agent.Frames.{Join, zip}

-- The results of an arm as they come in: a list, a text, or nothing.
pub data LastResults : Type 0 where
  listed : List ℕ → LastResults
  written : ℕ → LastResults
  absent : LastResults

-- A record of `add_arms`.
pub record ArmRecord : Type 0 where
  pub name : ℕ
  pub duration : ℕ
  pub calc_prio : ℕ
  pub last_run : ℕ
  pub num_ran : ℕ
  pub num_errors : ℕ
  pub verdict : ℕ
  pub last_results : LastResults

-- A row of `BANDIT_SCHEMA`.
pub record Arm : Type 0 where
  pub name : ℕ
  pub duration : ℕ
  pub calc_prio : ℕ
  pub last_run : ℕ
  pub num_ran : ℕ
  pub num_errors : ℕ
  pub verdict : ℕ
  pub last_results : ℕ

pub record Bandit : Type 0 where
  pub arms : List Arm
  pub arm_names : List ℕ

pub data BanditError : Type 0 where
  empty_action : BanditError

abbrev pub arm_name : Arm → ℕ
arm_name arm = arm.name

unfoldable pub reset : Bandit → Bandit
reset b = record { arms = []; arm_names = [] }

unfoldable pub get_arms : Bandit → List ℕ
get_arms b = b.arm_names

-- The texts of `add_arms`: `str` of a list, and "" for nothing.
abbrev pub results_text : (List ℕ → ℕ) → ℕ → LastResults → ℕ
results_text text empty (listed results) = text results
results_text text empty (written results) = results
results_text text empty absent = empty

abbrev pub arm_of : (List ℕ → ℕ) → ℕ → ArmRecord → Arm
arm_of text empty r = record {
  name = r.name;
  duration = r.duration;
  calc_prio = r.calc_prio;
  last_run = r.last_run;
  num_ran = r.num_ran;
  num_errors = r.num_errors;
  verdict = r.verdict;
  last_results = results_text text empty r.last_results;
}

-- With no arms both lists stay as they are, as under the test of the source.
unfoldable pub add_arms : (List ℕ → ℕ) → ℕ → List ArmRecord → Bandit → Bandit
add_arms text empty given b =
    let new = map (arm_of text empty) given in
    record b { arms = b.arms ++ new; arm_names = b.arm_names ++ map arm_name new }

-- `DynamicBandit.update_arms`
unfoldable pub update_arms : (List ℕ → ℕ) → ℕ → List ArmRecord → Bandit → Bandit
update_arms text empty given b = add_arms text empty given (reset b)

-- `list(range(start, start + n))`
abbrev pub range : ℕ → ℕ → List ℕ
range start zero = []
range start (suc n) = start ∷ range (suc start) n

abbrev pub clear_prio : Arm → Arm
clear_prio arm = record arm { calc_prio = 0 }

abbrev pub fill_prio : Arm × Option ℕ → Arm
fill_prio (arm, none) = record arm { calc_prio = 0 }
fill_prio (arm, some p) = record arm { calc_prio = p }

unfoldable pub update_priority : Join Arm ℕ → List ℕ → Bandit → Bandit
update_priority join action b =
    if is_empty action
    then record b { arms = map clear_prio b.arms }
    else record b { arms = map fill_prio (join b.arms (zip action (range 1 (length action)))) }

abbrev pub priority : Arm → ℕ
priority arm = arm.calc_prio

-- `EvaluationMetricBandit.pull`: the bandit with its arms in order, and what the metric gives.
-- `sort_rows column frame` is `frame.sort(column, descending=False)`.
unfoldable pub pull {ℓ} :
    {Score : Type ℓ}
    → Join Arm ℕ
    → ((Arm → ℕ) → List Arm → List Arm)
    → (List Arm → Score)
    → List ℕ
    → Bandit
    → Result BanditError (Score × Bandit)
pull join sort_rows evaluate action b =
    if is_empty action
    then err empty_action
    else (let updated = update_priority join action b in
        let sorted = sort_rows priority updated.arms in
        ok (evaluate sorted, record updated { arms = sorted }))
