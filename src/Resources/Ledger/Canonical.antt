-- ===== src/Resources/Ledger/Canonical.antt =====
-- The log that `_verified` leaves is its own validation: it is scanned again to itself.
use coleman.Base.{
  suc, ok-injective, subst, Result-cases, ◌+◌, ◌≤◌, ltb, true, false, ◌≡◌, refl, ap, ◌∙◌, ◌⊎◌, inl,
  inr, none, some, List, [], ◌∷◌, ◌++◌, length, length-append, Result, ok, ◌>>=◌, >>=-eq-ok, arith,
  Option-cases,
}
use coleman.Resources.Contracts.{same_content, ResourceAmount, ResourceEvent, metadata}
use coleman.Resources.Ledger.{
  LedgerError, ResourceLedger, Scan, seen, admit, scan_event, scan_all, start, verified,
  max_deliveries,
}

pub scan_all-append :
    (s : Scan) (xs ys : List ResourceEvent)
    → scan_all s (xs ++ ys) ≡ (scan_all s xs >>= λ t. scan_all t ys)
unfolding scan_all
scan_all-append s [] ys = refl
scan_all-append s (x ∷ xs) ys = elim (Result-cases (scan_event s x)) [
  | inl (t, e) ↦ rw e (scan_all-append t xs ys)
  | inr (x, e) ↦ rw e
]

pub admit-appends :
    (s : Scan) (e : ResourceEvent) {s' : Scan} → admit s e ≡ ok s' → s'.unique ≡ s.unique ++ e ∷ []
admit-appends s e h = ground arith

pub scan_all-one : (s : Scan) (e : ResourceEvent) → scan_all s (e ∷ []) ≡ scan_event s e
unfolding scan_all
scan_all-one s e = elim (Result-cases (scan_event s e)) [
  | inl (t, one) ↦ rw one
  | inr (x, one) ↦ rw one
]

-- One delivery leaves the scan alone, or appends itself to the log.
pub scan_event-inv :
    (s : Scan) (e : ResourceEvent) {s' : Scan}
    → scan_event s e ≡ ok s'
    → ((s' ≡ s)
        × (old : ResourceEvent) × (seen (metadata e).event_id s.unique ≡ some old)
        × (same_content old e ≡ true))
      ⊎ ((s'.unique ≡ s.unique ++ e ∷ [])
          × (seen (metadata e).event_id s.unique ≡ none)
          × (admit s e ≡ ok s'))
unfolding scan_event
scan_event-inv s e h = elim (Option-cases (seen (metadata e).event_id s.unique)) [
  | inl new ↦
      let k : admit s e ≡ ok _ = rw (new, scan_event) at h in inr (admit-appends s e k, new, k)
  | inr (old, found) ↦ inl (ground arith, old, found, ground arith)
]

-- A scan state that scanning its own log reaches again.
pub IsCanonical : ResourceAmount → Scan → Type 0
IsCanonical c s = scan_all (start c) s.unique ≡ ok s

pub scan_event-IsCanonical :
    (c : ResourceAmount) (s : Scan) (e : ResourceEvent) {s' : Scan}
    → IsCanonical c s
    → scan_event s e ≡ ok s'
    → IsCanonical c s'
unfolding IsCanonical
scan_event-IsCanonical c s e canonical h = elim (scan_event-inv s e h) [
  | inl (same, _, _, _) ↦ rw same canonical
  | inr (grown, _, _) ↦
      ap (scan_all (start c)) grown
      ∙ scan_all-append (start c) s.unique (e ∷ [])
      ∙ ap (λ (m : Result LedgerError Scan). m >>= λ t. scan_all t (e ∷ [])) canonical
      ∙ scan_all-one s e
      ∙ h
]

pub scan_all-IsCanonical :
    (c : ResourceAmount) (s : Scan) (es : List ResourceEvent) {s' : Scan}
    → IsCanonical c s
    → scan_all s es ≡ ok s'
    → IsCanonical c s'
unfolding scan_all
scan_all-IsCanonical c s [] canonical h = subst (IsCanonical c) (ok-injective h) canonical
scan_all-IsCanonical c s (e ∷ es) canonical h =
    let (t, one, rest) = >>=-eq-ok (scan_event s e) (λ u. scan_all u es) h in
    scan_all-IsCanonical c t es (scan_event-IsCanonical c s e canonical one) rest

scan_event-length :
    (s : Scan) (e : ResourceEvent) {s' : Scan}
    → scan_event s e ≡ ok s'
    → length s'.unique ≤ suc (length s.unique)
scan_event-length s e h = elim (scan_event-inv s e h) [
  | inl (same, _, _, _) ↦ let n = ap (λ (u : Scan). length u.unique) same in omega arith
  | inr (grown, _, _) ↦ let n = ap length grown in omega (arith, length-append s.unique (e ∷ []))
]

scan_all-length :
    (s : Scan) (es : List ResourceEvent) {s' : Scan}
    → scan_all s es ≡ ok s'
    → length s'.unique ≤ length s.unique + length es
unfolding scan_all
scan_all-length s [] h =
    let same = ap (λ (u : Scan). length u.unique) (ok-injective h) in omega arith
scan_all-length s (e ∷ es) h =
    let (t, one, rest) = >>=-eq-ok (scan_event s e) (λ u. scan_all u es) h in
    omega (arith, scan_event-length s e one, scan_all-length t es rest)

-- What `_verified` accepts: the scan of the deliveries, with the log of that scan in their place.
pub verified-inv :
    (l : ResourceLedger) {l' : ResourceLedger}
    → verified l ≡ ok l'
    → (s : Scan) × (scan_all (start l.capacity) l.events ≡ ok s)
      × (l' ≡ record l { events = s.unique })
      × (length l.events ≤ max_deliveries)
unfolding verified
verified-inv l h = elim (Result-cases (scan_all (start l.capacity) l.events)) [
  | inl (s, scanned) ↦ (s, scanned, ground arith, ground arith)
  | inr (x, raised) ↦ absurd (ground arith)
]

start-length : (c : ResourceAmount) → length (start c).unique ≡ 0
unfolding start
start-length c = refl

pub start-IsCanonical : (c : ResourceAmount) → IsCanonical c (start c)
unfolding IsCanonical start scan_all
start-IsCanonical c = refl

-- A validated ledger is validated again to itself.
pub verified_idem :
    (l : ResourceLedger) {l' : ResourceLedger} → verified l ≡ ok l' → verified l' ≡ ok l'
unfolding verified IsCanonical
verified_idem l h =
    let (s, scanned, same, short) = verified-inv l h in
    let again =
      scan_all-IsCanonical l.capacity (start l.capacity) l.events (start-IsCanonical l.capacity)
        scanned in
    let count = scan_all-length (start l.capacity) l.events scanned in
    rw (same, verified)
      (let fits : ltb max_deliveries (length s.unique) ≡ false =
          ground (arith, start-length l.capacity) in
        rw (fits, again))
