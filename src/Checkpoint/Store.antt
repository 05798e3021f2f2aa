-- ===== src/Checkpoint/Store.antt =====
-- coleman/checkpoint/checkpoint_store.py and state.py, over an explicit file store. A run is a
-- number; the pickled state of a payload is one too. A file of the store is found by the parts of
-- its name, and a pickle file that is being written is partial.
use coleman.Base.{
  ℕ, Bool, ◌&&◌, not, Option, none, some, List, [], ◌∷◌, ◌==◌, if◌then◌else◌, Result, ok, err, take,
}

pub record CheckpointPayload : Type 0 where
  pub run_id : ℕ
  pub experiment : ℕ
  pub step : ℕ
  pub state : ℕ

-- `ckpt_path`: the run's directory, and the two numbers of the file's name.
pub record CheckpointPath : Type 0 where
  pub run : ℕ
  pub number : ℕ
  pub at_step : ℕ

-- The content of `progress.json`.
pub record Progress : Type 0 where
  pub run_id : ℕ
  pub experiment : ℕ
  pub step_committed : ℕ
  pub checkpoint_path : CheckpointPath
  pub timestamp : ℕ

pub data Pickle : Type 0 where
  partial : Pickle
  whole : CheckpointPayload → Pickle

pub record Store : Type 0 where
  pub pickles : CheckpointPath → Option Pickle
  pub progress : ℕ → ℕ → Option Progress

pub data LoadError : Type 0 where
  unpickling_error : LoadError

abbrev pub same_path : CheckpointPath → CheckpointPath → Bool
same_path a b = (a.run == b.run) && ((a.number == b.number) && (a.at_step == b.at_step))

abbrev pub path_of : CheckpointPayload → CheckpointPath
path_of p = record { run = p.run_id; number = p.experiment; at_step = p.step }

abbrev pub write_pickle : CheckpointPath → Pickle → Store → Store
write_pickle path content s = record s {
  pickles = λ q. if same_path q path then some content else s.pickles q;
}

-- The rename that ends `_atomic_json_write`.
abbrev pub write_progress : Progress → Store → Store
write_progress g s = record s {
  progress = λ r e. if (r == g.run_id) && (e == g.experiment) then some g else s.progress r e;
}

abbrev pub progress_of : ℕ → CheckpointPayload → Progress
progress_of time p = record {
  run_id = p.run_id;
  experiment = p.experiment;
  step_committed = p.step;
  checkpoint_path = path_of p;
  timestamp = time;
}

-- What `save` does to the files, in order: the pickle is opened, which empties it, and written; the
-- temporary file of the progress, which no one reads, is then renamed.
unfoldable pub save_steps : ℕ → CheckpointPayload → List (Store → Store)
save_steps time p =
    write_pickle (path_of p) partial
    ∷ write_pickle (path_of p) (whole p)
    ∷ write_progress (progress_of time p)
    ∷ []

abbrev pub run_steps : List (Store → Store) → Store → Store
run_steps [] s = s
run_steps (f ∷ fs) s = run_steps fs (f s)

unfoldable pub save : ℕ → CheckpointPayload → Store → Store
save time p s = run_steps (save_steps time p) s

-- The store that a crash leaves after the first `n` steps of a save.
unfoldable pub crash : ℕ → ℕ → CheckpointPayload → Store → Store
crash n time p s = run_steps (take n (save_steps time p)) s

abbrev pub read_pickle : Option Pickle → Result LoadError (Option CheckpointPayload)
read_pickle none = ok none
read_pickle (some partial) = err unpickling_error
read_pickle (some (whole p)) = ok (some p)

abbrev pub load_progress : Store → ℕ → Option Progress → Result LoadError (Option CheckpointPayload)
load_progress s experiment none = ok none
load_progress s experiment (some g) =
    if not (g.experiment == experiment) then ok none else read_pickle (s.pickles g.checkpoint_path)

unfoldable pub load : ℕ → ℕ → Store → Result LoadError (Option CheckpointPayload)
load run_id experiment s = load_progress s experiment (s.progress run_id experiment)

-- `NullCheckpointStore`
abbrev pub null_save : CheckpointPayload → Store → Store
null_save p s = s

abbrev pub null_load : ℕ → ℕ → Store → Result LoadError (Option CheckpointPayload)
null_load run_id experiment s = ok none
