-- ===== src/Resources/Ledger/Deliveries.antt =====
-- What validation does to the deliveries: each is kept once.
use coleman.Base.{
  ℕ, ◌≡◌, refl, sym, ap, ◌∙◌, subst, inl, inr, true, some, List, [], ◌∷◌, ◌++◌, arith, ok,
  >>=-eq-ok, ok-injective, All,
}
use coleman.Resources.Contracts.{same_content, same_content_self, ResourceEvent, metadata}
use coleman.Resources.Ledger.{ResourceLedger, Scan, seen, scan_event, scan_all, start, verified}
use coleman.Resources.Ledger.Canonical.{verified_idem, verified-inv, scan_event-inv}
use coleman.Resources.Ledger.Append.{seen-append}
use coleman.Resources.Ledger.Log.{Distinct, verified-balance}

-- An event of a log with the identity and the content of a delivery.
abbrev pub IsKept : List ResourceEvent → ResourceEvent → Type 0
IsKept log e =
    (old : ResourceEvent) × (seen (metadata e).event_id log ≡ some old)
    × (same_content old e ≡ true)

seen-append_old :
    (id : ℕ) (es more : List ResourceEvent) (old : ResourceEvent)
    → seen id es ≡ some old
    → seen id (es ++ more) ≡ some old
seen-append_old id [] more old h = cc
seen-append_old id (e ∷ es) more old h = ground (arith, h, seen-append_old id es more old)

-- What is kept stays.
scan_event-IsKept :
    (s : Scan) (e x : ResourceEvent) {s' : Scan}
    → scan_event s e ≡ ok s'
    → IsKept s.unique x
    → IsKept s'.unique x
scan_event-IsKept s e x h (old, found, alike) = elim (scan_event-inv s e h) [
  | inl (same, _, _, _) ↦
      (old, ap (λ (u : Scan). seen (metadata x).event_id u.unique) same ∙ found, alike)
  | inr (grown, _, _) ↦ (
    old,
    ap (seen (metadata x).event_id) grown
        ∙ seen-append_old (metadata x).event_id s.unique (e ∷ []) old found,
    alike,
  )
]

scan_event-IsKept_self :
    (s : Scan) (e : ResourceEvent) {s' : Scan} → scan_event s e ≡ ok s' → IsKept s'.unique e
scan_event-IsKept_self s e h = elim (scan_event-inv s e h) [
  | inl (same, old, found, alike) ↦
      (old, ap (λ (u : Scan). seen (metadata e).event_id u.unique) same ∙ found, alike)
  | inr (grown, new, _) ↦ (
    e,
    ap (seen (metadata e).event_id) grown ∙ seen-append (metadata e).event_id s.unique e new refl,
    same_content_self e,
  )
]

scan_all-IsKept :
    (s : Scan) (es : List ResourceEvent) (x : ResourceEvent) {s' : Scan}
    → scan_all s es ≡ ok s'
    → IsKept s.unique x
    → IsKept s'.unique x
unfolding scan_all
scan_all-IsKept s [] x h kept = subst (λ (u : Scan). IsKept u.unique x) (ok-injective h) kept
scan_all-IsKept s (e ∷ es) x h kept =
    let (t, one, rest) = >>=-eq-ok (scan_event s e) (λ u. scan_all u es) h in
    scan_all-IsKept t es x rest (scan_event-IsKept s e x one kept)

scan_all-IsKept_all :
    (s : Scan) (es : List ResourceEvent) {s' : Scan}
    → scan_all s es ≡ ok s'
    → All (IsKept s'.unique) es
unfolding scan_all
scan_all-IsKept_all s [] h = tt
scan_all-IsKept_all s (e ∷ es) h =
    let (t, one, rest) = >>=-eq-ok (scan_event s e) (λ u. scan_all u es) h in
    (scan_all-IsKept t es e rest (scan_event-IsKept_self s e one), scan_all-IsKept_all t es rest)

-- Where validation accepts a ledger, its log has no identity twice, has for every delivery an
-- event with the identity and the content of that delivery, and is validated again to itself.
pub verified-deliveries :
    (l : ResourceLedger) {l' : ResourceLedger}
    → verified l ≡ ok l'
    → Distinct l'.events × All (IsKept l'.events) l.events × (verified l' ≡ ok l')
verified-deliveries l h =
    let (s, scanned, same, _) = verified-inv l h in
    let (_, distinct, _, _, _, _) = verified-balance l h in
    let kept = scan_all-IsKept_all (start l.capacity) l.events scanned in
    (
      distinct,
      subst (λ (k : ResourceLedger). All (IsKept k.events) l.events) (sym same) kept,
      verified_idem l h,
    )
