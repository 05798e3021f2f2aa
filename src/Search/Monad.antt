-- ===== src/Search/Monad.antt =====
-- The body of a search: it reads and writes the search state, and may stop, which keeps the state.
use coleman.Base.{Bool, Option, none, some, List, Result, ok, err}
use coleman.Search.Limits.{key_error, WorkCounter, Stop, Environment, poll_counter, step_counter}
use coleman.Search.Mathematics.{SelectionValue}

-- `_SearchState` without its constant tables.
pub record SearchState : Type 0 where
  pub counter : WorkCounter
  pub best : SelectionValue
  pub proof : List (List Bool)

pub data Outcome (A : Type 0) : Type 0 where
  returned : A → Outcome A
  stopped : Stop → Outcome A

abbrev pub Search : Type 0 → Type 0
Search A = SearchState → Outcome A × SearchState

infixl 5 ◌>>=◌ ◌>>◌
abbrev pub ◌>>=◌ : {A B : Type 0} → Search A → (A → Search B) → Search B
◌>>=◌ m f s = let (o, s') = m s in elim o [ returned a ↦ f a s' | stopped why ↦ (stopped why, s') ]

abbrev pub ◌>>◌ : {A B : Type 0} → Search A → Search B → Search B
m >> n = m >>= λ _. n

abbrev pub give : {A : Type 0} → A → Search A
give a s = (returned a, s)

abbrev pub stop : {A : Type 0} → Stop → Search A
stop why s = (stopped why, s)

-- A table lookup.
abbrev pub key : {A : Type 0} → Option A → Search A
key none = stop key_error
key (some a) = give a

abbrev pub get_best : Search SelectionValue
get_best s = (returned s.best, s)

abbrev pub set_best : SelectionValue → Search (Unit {0})
set_best v s = (returned tt, record s { best = v })

abbrev pub count_with : (WorkCounter → Result Stop WorkCounter) → Search (Unit {0})
count_with count s = elim (count s.counter) [
  | ok c ↦ (returned tt, record s { counter = c })
  | err why ↦ (stopped why, s)
]

abbrev pub poll : Environment → Search (Unit {0})
poll env = count_with (poll_counter env)

abbrev pub step : Environment → Search (Unit {0})
step env = count_with (step_counter env)
