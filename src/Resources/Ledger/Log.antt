-- ===== src/Resources/Ledger/Log.antt =====
-- What a validated log looks like, and that its balance can always be computed.
use mathlib.Core.Path.{subst₂}
use coleman.Base.{
  ℕ, suc, ◌+◌, ◌≤◌, ◌==◌, false, ◌≡◌, refl, sym, ap, ◌∙◌, subst, inl, inr, Option, none, some, List,
  [], ◌∷◌, ◌++◌, length, All, All-append, Result, ok, ◌>>=◌, >>=-eq-ok, ok-injective, arith,
  Result-cases,
}
use coleman.Resources.Contracts.{ResourceAmount, ResourceEvent, metadata}
use coleman.Resources.State.{Replay, Error, init}
use coleman.Resources.Replay.{apply, apply_all}
use coleman.Resources.Balance.{IsBalanced, init-IsBalanced, apply-IsBalanced}
use coleman.Resources.Ledger.{
  ResourceLedger, Scan, seen, out_of_order, admit, scan_event, scan_all, start, verified, balance,
}
use coleman.Resources.Ledger.Canonical.{verified_idem, verified-inv, scan_event-inv, admit-appends}

-- Sequence numbers count up from `n` without a gap.
abbrev pub Numbered : ℕ → List ResourceEvent → Type 0
Numbered n [] = Unit
Numbered n (e ∷ es) = ((metadata e).sequence ≡ n) × Numbered (suc n) es

-- No event is received before an earlier one of the log.
abbrev pub Received : List ResourceEvent → Type 0
Received [] = Unit
Received (e ∷ es) = All (λ x. (metadata e).recorded_at ≤ (metadata x).recorded_at) es × Received es

-- No identity occurs twice.
abbrev pub Distinct : List ResourceEvent → Type 0
Distinct [] = Unit
Distinct (e ∷ es) = (seen (metadata e).event_id es ≡ none) × Distinct es

-- Every receipt of the log is at most that of `previous`.
abbrev pub Before : Option ResourceEvent → List ResourceEvent → Type 0
Before none es = es ≡ []
Before (some p) es = All (λ x. (metadata x).recorded_at ≤ (metadata p).recorded_at) es

pub record IsLog (c : ResourceAmount) (s : Scan) : Type 0 where
  pub replayed : apply_all (init c) s.unique ≡ ok s.replay
  pub balanced : IsBalanced s.replay
  pub numbered : Numbered 1 s.unique
  pub received : Received s.unique
  pub before : Before s.previous s.unique
  pub distinct : Distinct s.unique

Numbered-append :
    (n : ℕ) (es : List ResourceEvent) (e : ResourceEvent)
    → Numbered n es
    → (metadata e).sequence ≡ length es + n
    → Numbered n (es ++ e ∷ [])
Numbered-append n [] e h k = (omega arith, tt)
Numbered-append n (x ∷ es) e h k = (h.0, Numbered-append (suc n) es e h.1 (omega arith))

Received-append :
    (es : List ResourceEvent) (e : ResourceEvent)
    → Received es
    → Before (some e) es
    → Received (es ++ e ∷ [])
Received-append [] e h k = (tt, tt)
Received-append (x ∷ es) e h k = (
  All-append (λ y. (metadata x).recorded_at ≤ (metadata y).recorded_at) es (e ∷ []) h.0 (k.0, tt),
  Received-append es e h.1 k.1,
)

seen-append_none :
    (id : ℕ) (es : List ResourceEvent) (e : ResourceEvent)
    → seen id es ≡ none
    → (id == (metadata e).event_id) ≡ false
    → seen id (es ++ e ∷ []) ≡ none
seen-append_none id [] e h k = ground arith
seen-append_none id (x ∷ es) e h k = ground (arith, seen-append_none id es e)

Distinct-append :
    (es : List ResourceEvent) (e : ResourceEvent)
    → Distinct es
    → seen (metadata e).event_id es ≡ none
    → Distinct (es ++ e ∷ [])
Distinct-append [] e h k = (refl, tt)
Distinct-append (x ∷ es) e h k = (
  seen-append_none (metadata x).event_id es e h.0 (ground arith),
  Distinct-append es e h.1 (ground arith),
)

Before-trans :
    (p q : ResourceEvent) (es : List ResourceEvent)
    → (metadata p).recorded_at ≤ (metadata q).recorded_at
    → Before (some p) es
    → Before (some q) es
Before-trans p q [] h k = tt
Before-trans p q (x ∷ es) h k = (omega arith, Before-trans p q es h k.1)

pub apply_all-append :
    (r : Replay) (xs ys : List ResourceEvent)
    → apply_all r (xs ++ ys) ≡ (apply_all r xs >>= λ t. apply_all t ys)
unfolding apply_all
apply_all-append r [] ys = refl
apply_all-append r (x ∷ xs) ys = elim (Result-cases (apply r x)) [
  | inl (t, one) ↦ rw one (apply_all-append t xs ys)
  | inr (x, one) ↦ rw one
]

apply_all-one :
    (r : Replay) (e : ResourceEvent) {r' : Replay}
    → apply r e ≡ ok r'
    → apply_all r (e ∷ []) ≡ ok r'
unfolding apply_all
apply_all-one r e h = rw h

Before-latest :
    (o : Option ResourceEvent) (es : List ResourceEvent) (e : ResourceEvent)
    → Before o es
    → out_of_order e o ≡ false
    → Before (some e) es
Before-latest none es e h k = subst (Before (some e)) (sym h) tt
Before-latest (some p) es e h k = Before-trans p e es (ground arith) h

-- What a new event that is accepted has been checked for.
admit-inv :
    (s : Scan) (e : ResourceEvent) {s' : Scan}
    → admit s e ≡ ok s'
    → ((metadata e).sequence ≡ length s.unique + 1)
      × (out_of_order e s.previous ≡ false)
      × (s'.previous ≡ some e)
      × (apply s.replay e ≡ ok s'.replay)
admit-inv s e h = elim (Result-cases (apply s.replay e)) [
  | inl (r, done) ↦ (ground arith, ground arith, ground arith, ground arith)
  | inr (x, raised) ↦ absurd (ground arith)
]

admit-IsLog :
    (c : ResourceAmount) (s : Scan) (e : ResourceEvent) {s' : Scan}
    → IsLog c s
    → seen (metadata e).event_id s.unique ≡ none
    → admit s e ≡ ok s'
    → IsLog c s'
admit-IsLog c s e {s' = s'} v new h =
    let (number, order, last, replayed) = admit-inv s e h in
    let grown = admit-appends s e h in
    let log = s.unique ++ e ∷ [] in
    let before : Before (some e) s.unique = Before-latest s.previous s.unique e v.before order in
    record {
      replayed =
          ap (apply_all (init c)) grown
          ∙ apply_all-append (init c) s.unique (e ∷ [])
          ∙ ap (λ (m : Result Error Replay). m >>= λ t. apply_all t (e ∷ [])) v.replayed
          ∙ apply_all-one s.replay e replayed;
      balanced = apply-IsBalanced s.replay e v.balanced replayed;
      numbered = subst (Numbered 1) (sym grown) (Numbered-append 1 s.unique e v.numbered number);
      received = subst Received (sym grown) (Received-append s.unique e v.received before);
      before = subst₂ Before (sym last) (sym grown) (
          All-append (λ x. (metadata x).recorded_at ≤ (metadata e).recorded_at) s.unique (e ∷ [])
            before (omega arith, tt));
      distinct = subst Distinct (sym grown) (Distinct-append s.unique e v.distinct new);
    }

scan_event-IsLog :
    (c : ResourceAmount) (s : Scan) (e : ResourceEvent) {s' : Scan}
    → IsLog c s
    → scan_event s e ≡ ok s'
    → IsLog c s'
scan_event-IsLog c s e v h = elim (scan_event-inv s e h) [
  | inl (same, _, _, _) ↦ subst (IsLog c) (sym same) v
  | inr (_, new, admitted) ↦ admit-IsLog c s e v new admitted
]

pub scan_all-IsLog :
    (c : ResourceAmount) (s : Scan) (es : List ResourceEvent) {s' : Scan}
    → IsLog c s
    → scan_all s es ≡ ok s'
    → IsLog c s'
unfolding scan_all
scan_all-IsLog c s [] v h = subst (IsLog c) (ok-injective h) v
scan_all-IsLog c s (e ∷ es) v h =
    let (t, one, rest) = >>=-eq-ok (scan_event s e) (λ u. scan_all u es) h in
    scan_all-IsLog c t es (scan_event-IsLog c s e v one) rest

pub start-IsLog : (c : ResourceAmount) → IsLog c (start c)
unfolding start apply_all
start-IsLog c = record {
  replayed = refl;
  balanced = init-IsBalanced c;
  numbered = tt;
  received = tt;
  before = refl;
  distinct = tt;
}

-- A ledger that validation has accepted has a log numbered 1, 2, ... with no gap, with no identity
-- twice and received in order; its balance is always computed, and capacity is what is available,
-- reserved and consumed.
pub verified-balance :
    (l : ResourceLedger) {l' : ResourceLedger}
    → verified l ≡ ok l'
    → Numbered 1 l'.events
      × Distinct l'.events
      × Received l'.events
      × (r : Replay) × (balance l' ≡ ok r)
      × IsBalanced r
unfolding balance
verified-balance l h =
    let (s, scanned, same, _) = verified-inv l h in
    let v =
      scan_all-IsLog l.capacity (start l.capacity) l.events (start-IsLog l.capacity) scanned in
    let again = subst (λ (k : ResourceLedger). verified k ≡ ok k) same (verified_idem l h) in
    rw same (v.numbered, v.distinct, v.received, s.replay, rw (again, v.replayed), v.balanced)
