-- ===== src/Checkpoint/Crash.antt =====
-- A saved checkpoint is loaded again, and a crash during a save loses nothing.
use coleman.Base.{
  sym, ap, subst, inr, Bool, ◌&&◌, not, arith, ◌==◌, if◌then◌else◌, Bool-cases, ℕ, zero, suc, ◌≡◌,
  refl, ◌∙◌, ◌⊎◌, inl, true, false, Option, none, some, eq_self, ok,
}
use coleman.Checkpoint.Store.{
  CheckpointPayload, CheckpointPath, Progress, Store, Pickle, partial, whole, same_path, path_of,
  write_pickle, save_steps, save, crash, load, load_progress, read_pickle,
}

same_path_self : (a : CheckpointPath) → same_path a a ≡ true
same_path_self a = rw (eq_self a.run, eq_self a.number, eq_self a.at_step) refl

chosen {ℓ} : {A : Type ℓ} (b : Bool) (x y : A) → b ≡ true → (if b then x else y) ≡ x
chosen true x y e = refl
chosen false x y e = cc

passed_over {ℓ} : {A : Type ℓ} (b : Bool) (x y : A) → b ≡ false → (if b then x else y) ≡ y
passed_over true x y e = cc
passed_over false x y e = refl

saved :
    (p : CheckpointPayload) (b c : Bool) (o : Option Pickle)
    → b ≡ true
    → c ≡ true
    → (if not b then ok none else read_pickle (if c then some (whole p) else o)) ≡ ok (some p)
saved p true true o e f = refl
saved p true false o e f = cc
saved p false c o e f = cc

both_true : (a b : Bool) → a ≡ true → b ≡ true → (a && b) ≡ true
both_true true true e f = refl
both_true true false e f = cc
both_true false b e f = cc

-- On every store, loading the run and the experiment of a payload that has just been saved gives
-- that payload.
pub load-save :
    (time : ℕ) (p : CheckpointPayload) (s : Store)
    → load p.run_id p.experiment (save time p s) ≡ ok (some p)
unfolding load save save_steps
load-save time p s =
    ap (load_progress (save time p s) p.experiment) (
      chosen ((p.run_id == p.run_id) && (p.experiment == p.experiment)) _ _
        (both_true _ _ (eq_self p.run_id) (eq_self p.experiment)))
    ∙ saved p (p.experiment == p.experiment) (same_path (path_of p) (path_of p)) _
        (eq_self p.experiment) (same_path_self (path_of p))

-- The progress of a run, if there is one, does not name a path.
abbrev pub IsElsewhere : CheckpointPath → Option Progress → Type 0
IsElsewhere path none = Unit
IsElsewhere path (some g) = same_path g.checkpoint_path path ≡ false

write_pickle-elsewhere :
    (path : CheckpointPath) (content : Pickle) (s : Store) (experiment : ℕ) (g : Option Progress)
    → IsElsewhere path g
    → load_progress (write_pickle path content s) experiment g ≡ load_progress s experiment g
write_pickle-elsewhere path content s experiment none h = refl
write_pickle-elsewhere path content s experiment (some g) h = rw h refl

crash_late :
    (n time : ℕ) (p : CheckpointPayload) (s : Store)
    → crash (suc (suc (suc n))) time p s ≡ save time p s
unfolding crash save save_steps
crash_late zero time p s = refl
crash_late (suc n) time p s = refl

split_and : (a b : Bool) → (a && b) ≡ true → (a ≡ true) × (b ≡ true)
split_and true true e = (refl, refl)
split_and true false e = cc
split_and false b e = cc

same_number : (a b : ℕ) → (a == b) ≡ true → a ≡ b
same_number a b e = ground arith

written-elsewhere :
    (time : ℕ) (p : CheckpointPayload) (s : Store) (experiment : ℕ) (g : Option Progress)
    → IsElsewhere (path_of p) g
    → load_progress
        (write_pickle (path_of p) (whole p) (write_pickle (path_of p) partial s))
        experiment
        g
      ≡ load_progress s experiment g
written-elsewhere time p s experiment g h =
    write_pickle-elsewhere (path_of p) (whole p) (write_pickle (path_of p) partial s) experiment g h
    ∙ write_pickle-elsewhere (path_of p) partial s experiment g h

load-save_any :
    (time : ℕ) (p : CheckpointPayload) (s : Store) (run_id experiment : ℕ)
    → IsElsewhere (path_of p) (s.progress run_id experiment)
    → (load run_id experiment (save time p s) ≡ load run_id experiment s)
      ⊎ ((run_id ≡ p.run_id)
          × (experiment ≡ p.experiment)
          × (load run_id experiment (save time p s) ≡ ok (some p)))
unfolding load save save_steps
load-save_any time p s run_id experiment h =
    elim (Bool-cases ((run_id == p.run_id) && (experiment == p.experiment))) [
      | inl e ↦
          let (r, x) = split_and (run_id == p.run_id) (experiment == p.experiment) e in
          inr (
            same_number run_id p.run_id r,
            same_number experiment p.experiment x,
            ap (load_progress (save time p s) experiment)
                  (chosen ((run_id == p.run_id) && (experiment == p.experiment)) _ _ e)
                ∙ saved p (p.experiment == experiment) (same_path (path_of p) (path_of p)) _
                    (ap (◌==◌ p.experiment) (same_number experiment p.experiment x)
                      ∙ eq_self p.experiment)
                    (same_path_self (path_of p)),
          )
      | inr e ↦ inl (
          ap (load_progress (save time p s) experiment)
            (passed_over ((run_id == p.run_id) && (experiment == p.experiment)) _ _ e)
          ∙ written-elsewhere time p s experiment (s.progress run_id experiment) h)
    ]

-- A save may stop after any number of its steps on the files. For a run and an experiment whose
-- progress, if there is one, names another pickle file than the one being saved: loading gives
-- what it gave before the save, or, only for the run and the experiment of the saved payload, that
-- payload.
pub crash-load :
    (n time : ℕ) (p : CheckpointPayload) (s : Store) (run_id experiment : ℕ)
    → IsElsewhere (path_of p) (s.progress run_id experiment)
    → (load run_id experiment (crash n time p s) ≡ load run_id experiment s)
      ⊎ ((run_id ≡ p.run_id)
          × (experiment ≡ p.experiment)
          × (load run_id experiment (crash n time p s) ≡ ok (some p)))
unfolding load crash save_steps
crash-load zero time p s run_id experiment h = inl refl
crash-load (suc zero) time p s run_id experiment h =
    inl (write_pickle-elsewhere (path_of p) partial s experiment (s.progress run_id experiment) h)
crash-load (suc (suc zero)) time p s run_id experiment h =
    inl (written-elsewhere time p s experiment (s.progress run_id experiment) h)
crash-load (suc (suc (suc n))) time p s run_id experiment h =
    subst
      (λ (t : Store).
        (load run_id experiment t ≡ load run_id experiment s)
        ⊎ ((run_id ≡ p.run_id)
            × (experiment ≡ p.experiment)
            × (load run_id experiment t ≡ ok (some p))))
      (sym (crash_late n time p s)) (load-save_any time p s run_id experiment h)
