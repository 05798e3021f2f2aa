-- ===== src/Search/Triple.antt =====
-- Triples of a precondition, a body and a postcondition, for the bodies of the coverage search.
use coleman.Base.{Bool, true, false, if◌then◌else◌, ◌≡◌, refl, Option, none, some}
use coleman.Search.Monad.{give, SearchState, Outcome, Search, returned, stopped, ◌>>=◌, key}
use coleman.Search.Limits.{Stop}

-- `Ended` is what holds of a stop.
module _ (Ended : Stop → SearchState → Type 0) where
  abbrev pub Post : {A : Type 0} → (A → SearchState → Type 0) → Outcome A × SearchState → Type 0
  Post Q (returned a, s) = Q a s
  Post Q (stopped why, s) = Ended why s

  pub record Triple {A : Type 0} (P : SearchState → Type 0) (m : Search A)
      (Q : A → SearchState → Type 0) : Type 0 where
    pub holds : (s : SearchState) → P s → Post Q (m s)

  Post-bind :
      {A B : Type 0} (Q : A → SearchState → Type 0) (R : B → SearchState → Type 0)
      (r : Outcome A × SearchState) (f : A → Search B)
      → Post Q r
      → ((a : A) → Triple (Q a) (f a) R)
      → Post R (((λ _. r) >>= f) r.1)
  Post-bind Q R (returned a, s) f h k = (k a).holds s h
  Post-bind Q R (stopped why, s) f h k = h

  pub Triple-bind :
      {A B : Type 0} {P : SearchState → Type 0} {Q : A → SearchState → Type 0}
      {R : B → SearchState → Type 0} (m : Search A) (f : A → Search B)
      → Triple P m Q
      → ((a : A) → Triple (Q a) (f a) R)
      → Triple P (m >>= f) R
  Triple-bind {Q = Q} {R = R} m f h k = record {
    holds = λ s p. Post-bind Q R (m s) f (h.holds s p) k;
  }

  pub Triple-give :
      {A : Type 0} {P : SearchState → Type 0} {Q : A → SearchState → Type 0} (a : A)
      → ((s : SearchState) → P s → Q a s)
      → Triple P (give a) Q
  Triple-give a h = record { holds = h }

  -- A lookup that returns has found its key.
  pub Triple-key :
      {A : Type 0} {P : SearchState → Type 0} (o : Option A)
      → ((s : SearchState) → P s → Ended Stop.key_error s)
      → Triple P (key o) (λ a s. P s × (o ≡ some a))
  Triple-key none h = record { holds = h }
  Triple-key (some a) h = record { holds = λ s p. (p, refl) }

  -- A fact of a precondition that no state takes part in.
  pub Triple-pure :
      {A : Type 0} {Φ : Type 0} {P : SearchState → Type 0} {Q : A → SearchState → Type 0}
      {m : Search A}
      → (Φ → Triple P m Q)
      → Triple (λ s. P s × Φ) m Q
  Triple-pure h = record { holds = λ s p. (h p.1).holds s p.0 }

  pub Triple-weaken :
      {A : Type 0} {P P' : SearchState → Type 0} {Q : A → SearchState → Type 0} {m : Search A}
      → ((s : SearchState) → P' s → P s)
      → Triple P m Q
      → Triple P' m Q
  Triple-weaken h k = record { holds = λ s p. k.holds s (h s p) }

  pub Triple-if :
      {A : Type 0} {P : SearchState → Type 0} {Q : A → SearchState → Type 0} {m n : Search A}
      (b : Bool)
      → (b ≡ true → Triple P m Q)
      → (b ≡ false → Triple P n Q)
      → Triple P (if b then m else n) Q
  Triple-if true h k = h refl
  Triple-if false h k = k refl

  Post-map :
      {A : Type 0} (Q R : A → SearchState → Type 0) (r : Outcome A × SearchState)
      → ((a : A) (s : SearchState) → Q a s → R a s)
      → Post Q r
      → Post R r
  Post-map Q R (returned a, s) f h = f a s h
  Post-map Q R (stopped why, s) f h = h

  pub Triple-post :
      {A : Type 0} {P : SearchState → Type 0} {Q R : A → SearchState → Type 0} {m : Search A}
      → ((a : A) (s : SearchState) → Q a s → R a s)
      → Triple P m Q
      → Triple P m R
  Triple-post {Q = Q} {R = R} {m = m} f h = record {
    holds = λ s p. Post-map Q R (m s) f (h.holds s p);
  }
