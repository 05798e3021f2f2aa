-- ===== src/Agent/State.antt =====
-- coleman/agent/base.py, reward_agent.py and sliding_window.py, and `credit_assignment` of
-- coleman/policy/base.py. Floats, the weights of `np.linspace`, the shuffle, the left join, the
-- policy and the reward function are parameters; a name is a number.
use coleman.Base.{
  to_set, difference, ℕ, ◌+◌, ◌-◌, min, max, Bool, ◌&&◌, Option, none, some, List, [], ◌∷◌, ◌++◌,
  map, ltb, ◌==◌, if◌then◌else◌, Result, ok, err, ◌>>=◌, length, take, is_empty, contains,
  add_to_set, sort,
}
use coleman.Agent.Frames.{Join, zip}

-- The operations on floats that the agents use.
pub record Arithmetic (V : Type 0) : Type 0 where
  pub nought : V
  pub plus : V → V → V
  pub minus : V → V → V
  pub over : V → V → V
  pub is_positive : V → Bool

-- A row of `ACTIONS_SCHEMA`.
pub record ActionRow (V : Type 0) : Type 0 where
  pub name : ℕ
  pub attempts : V
  pub estimate : V
  pub q : Option V

-- A row of `HISTORY_SCHEMA`.
pub record HistoryRow (V : Type 0) : Type 0 where
  pub action : ActionRow V
  pub taken_at : ℕ

pub record Agent (V : Type 0) : Type 0 where
  pub last_prioritization : List ℕ
  pub t : ℕ
  pub actions : List (ActionRow V)
  pub action_names : List ℕ

-- `RewardSlidingWindowAgent`
pub record WindowAgent (V : Type 0) : Type 0 where
  pub base : Agent V
  pub window_size : ℕ
  pub history : List (HistoryRow V)

-- The frame refuses columns of different lengths.
pub data AgentError : Type 0 where
  shape_mismatch : AgentError

module _ {V : Type 0} where
  abbrev pub name_of : ActionRow V → ℕ
  name_of row = row.name

  abbrev pub names_of : List (ActionRow V) → List ℕ
  names_of rows = map name_of rows

  abbrev pub drop_rows : List ℕ → List (ActionRow V) → List (ActionRow V)
  drop_rows obsolete [] = []
  drop_rows obsolete (row ∷ rows) =
      if contains row.name obsolete then drop_rows obsolete rows else row ∷ drop_rows obsolete rows

module _ {V : Type 0} (num : Arithmetic V) where
  abbrev pub new_row : ℕ → ActionRow V
  new_row n = record { name = n; attempts = num.nought; estimate = num.nought; q = some num.nought }

  -- `Agent.__init__`
  unfoldable pub init : Agent V
  init = record { last_prioritization = []; t = 0; actions = []; action_names = [] }

  abbrev pub clear_row : ActionRow V → ActionRow V
  clear_row row = new_row row.name

  -- `Agent.reset`
  unfoldable pub reset : Agent V → Agent V
  reset a = record {
    last_prioritization = [];
    t = 0;
    actions = map clear_row a.actions;
    action_names = to_set (names_of (map clear_row a.actions));
  }

  unfoldable pub add_action : ℕ → Agent V → Agent V
  add_action n a = if contains n a.action_names then a else record a {
    actions = a.actions ++ new_row n ∷ [];
    action_names = add_to_set n a.action_names;
  }

  -- Adding no row and dropping no row leave the frame as it is, so the two tests of the source on
  -- the emptiness of the sets are not repeated; the last one is.
  unfoldable pub update_actions : List ℕ → Agent V → Agent V
  update_actions available a =
      let fresh = difference (to_set available) a.action_names in
      let obsolete = difference a.action_names available in
      let actions = drop_rows obsolete a.actions ++ map new_row (sort fresh) in
      if is_empty obsolete && is_empty fresh
      then a
      else record a { actions = actions; action_names = to_set (names_of actions) }

  abbrev pub fill_q : ActionRow V → ActionRow V
  fill_q row = elim row.q [ none ↦ record row { q = some num.nought } | some _ ↦ row ]

  -- `choose`: a shuffle at the start, then the policy.
  unfoldable pub choose : (List ℕ → List ℕ) → (Agent V → List ℕ) → Agent V → List ℕ × Agent V
  choose shuffle choose_all a =
      let filled : Agent V = record a { actions = map fill_q a.actions } in
      let order = if a.t == 0 then shuffle (names_of a.actions) else choose_all filled in
      (order, record (if a.t == 0 then a else filled) { last_prioritization = order })

  abbrev pub add_attempt : ActionRow V × Option V → ActionRow V
  add_attempt (row, none) = record row { attempts = num.plus row.attempts num.nought }
  add_attempt (row, some w) = record row { attempts = num.plus row.attempts w }

  -- `weights n` are the `n` weights of `_attempt_weights`.
  unfoldable pub update_action_attempts : Join (ActionRow V) V → (ℕ → List V) → Agent V → Agent V
  update_action_attempts join weights a =
      let n = length a.last_prioritization in
      if n == 0 then a else record a {
        actions = map add_attempt (join a.actions (zip a.last_prioritization (weights n)));
      }

  -- The incremental mean of `Agent.observe`.
  abbrev pub learn : ActionRow V × Option V → ActionRow V
  learn (row, none) = row
  learn (row, some r) =
      if num.is_positive row.attempts
      then record row {
        estimate = num.plus row.estimate (num.over (num.minus r row.estimate) row.attempts);
      }
      else row

  -- `Agent.observe`
  unfoldable pub observe : Join (ActionRow V) V → (ℕ → List V) → List V → Agent V → Agent V
  observe join weights rewards a =
      let a' = update_action_attempts join weights a in
      let n = min (length a'.last_prioritization) (length rewards) in
      if n == 0 then record a' { t = a'.t + 1 } else record a' {
        t = a'.t + 1;
        actions =
            map learn (join a'.actions (zip (take n a'.last_prioritization) (take n rewards)));
      }

  abbrev pub accumulate : ActionRow V × Option V → ActionRow V
  accumulate (row, none) = record row { estimate = num.plus row.estimate num.nought }
  accumulate (row, some r) = record row { estimate = num.plus row.estimate r }

  abbrev pub replace : ActionRow V × Option V → ActionRow V
  replace (row, none) = record row { estimate = num.nought }
  replace (row, some r) = record row { estimate = r }

  -- The rewards of a prioritization, joined into the frame.
  abbrev pub rewarded :
      Join (ActionRow V) V → (ActionRow V × Option V → ActionRow V) → List V → Agent V → Agent V
  rewarded join update rewards a = record a {
    t = a.t + 1;
    actions =
        map update (
          join a.actions (zip a.last_prioritization (take (length a.last_prioritization) rewards)));
  }

  unfoldable pub apply_rewards :
      Join (ActionRow V) V
      → (ActionRow V × Option V → ActionRow V)
      → List V
      → Agent V
      → Result AgentError (Agent V)
  apply_rewards join update rewards a =
      let n = length a.last_prioritization in
      if length (take n rewards) == n
      then ok (rewarded join update rewards a)
      else err shape_mismatch

  -- `Policy.credit_assignment`, the one of the base class.
  abbrev pub credit_row : ActionRow V → ActionRow V
  credit_row row = record row {
    q =
        some
          (if num.is_positive row.attempts then num.over row.estimate row.attempts else num.nought);
  }

  unfoldable pub credit_assignment : Agent V → Result AgentError (Agent V)
  credit_assignment a = ok (record a { actions = map credit_row a.actions })

  -- `RewardAgent.observe`; `credit` is the credit assignment of the policy, which may override the
  -- one of the base class.
  unfoldable pub observe_reward :
      Join (ActionRow V) V
      → (ℕ → List V)
      → (List ℕ → List V)
      → (Agent V → Result AgentError (Agent V))
      → Agent V
      → Result AgentError (Agent V)
  observe_reward join weights evaluate credit a =
      let a' = update_action_attempts join weights a in
      let rewards = evaluate a'.last_prioritization in
      let learned =
        if is_empty a'.last_prioritization
        then ok (record a' { t = a'.t + 1 })
        else apply_rewards join accumulate rewards a' in
      learned >>= credit

  abbrev pub stamp : ℕ → ActionRow V → HistoryRow V
  stamp t row = record { action = row; taken_at = t }

  -- The greatest time of a history, zero when it is empty.
  abbrev pub latest_time : List (HistoryRow V) → ℕ
  latest_time [] = 0
  latest_time (row ∷ rows) = max row.taken_at (latest_time rows)

  abbrev pub keep_after : ℕ → List (HistoryRow V) → List (HistoryRow V)
  keep_after least [] = []
  keep_after least (row ∷ rows) =
      if ltb least row.taken_at then row ∷ keep_after least rows else keep_after least rows

  unfoldable pub update_history : WindowAgent V → WindowAgent V
  update_history w =
      let history = w.history ++ map (stamp w.base.t) w.base.actions in
      let max_t = latest_time history in
      record w {
        history =
            if ltb w.window_size max_t then keep_after (max_t - w.window_size) history else history;
      }

  abbrev pub forget : ActionRow V → ActionRow V
  forget row = record row { estimate = num.nought }

  -- `RewardSlidingWindowAgent.observe`
  unfoldable pub observe_window :
      Join (ActionRow V) V
      → (ℕ → List V)
      → (List ℕ → List V)
      → (WindowAgent V → Result AgentError (WindowAgent V))
      → WindowAgent V
      → Result AgentError (WindowAgent V)
  observe_window join weights evaluate credit w =
      let a' = update_action_attempts join weights w.base in
      let rewards = evaluate a'.last_prioritization in
      let learned =
        if is_empty a'.last_prioritization
        then ok (record a' { t = a'.t + 1; actions = map forget a'.actions })
        else apply_rewards join replace rewards a' in
      learned >>= λ a''. credit (update_history (record w { base = a'' }))
