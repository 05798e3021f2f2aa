-- ===== src/Checkpoint/Tests.antt =====
-- A save over an older checkpoint, and the witnesses of the properties.
use coleman.Base.{ℕ, ◌≡◌, refl, ◌⊎◌, none, some, ok}
use coleman.Checkpoint.Store.{CheckpointPayload, Store, save, load, crash, save_steps}
use coleman.Checkpoint.Crash.{load-save, crash-load}

abbrev payload : ℕ → ℕ → CheckpointPayload
payload step state = record { run_id = 1; experiment = 2; step = step; state = state }

abbrev fresh : Store
fresh = record { pickles = λ _. none; progress = λ _ _. none }

abbrev older : Store
older = save 10 (payload 4 77) fresh

after_crash : load 1 2 (crash 2 11 (payload 5 88) older) ≡ ok (some (payload 4 77))
unfolding save crash load save_steps
after_crash = refl

load-save_example : load 1 2 (save 11 (payload 5 88) older) ≡ ok (some (payload 5 88))
load-save_example = load-save 11 (payload 5 88) older

crash-load_example :
    (load 1 2 (crash 2 11 (payload 5 88) older) ≡ load 1 2 older)
    ⊎ (((payload 5 88).run_id ≡ 1)
        × ((payload 5 88).experiment ≡ 2)
        × (load 1 2 (crash 2 11 (payload 5 88) older) ≡ ok (some (payload 5 88))))
unfolding save save_steps
crash-load_example = crash-load 2 11 (payload 5 88) older 1 2 refl
