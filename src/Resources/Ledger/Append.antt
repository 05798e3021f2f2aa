-- ===== src/Resources/Ledger/Append.antt =====
-- `ResourceLedger.append`: what an accepted event does to the log, and retries.
use coleman.Base.{
  ok-ne-err, ℕ, true, ◌≡◌, refl, sym, ap, ◌∙◌, subst, ◌⊎◌, inl, inr, Option, none, some, List, [],
  ◌∷◌, ◌++◌, Result, ok, ◌>>=◌, >>=-eq-ok, ok-injective, arith, Option-cases, Bool-cases,
}
use coleman.Resources.Contracts.{same_content_self, same_content, ResourceEvent, metadata}
use coleman.Resources.Ledger.{
  LedgerError, ResourceLedger, Scan, seen, scan_event, scan_all, start, verified, append,
  append_validated,
}
use coleman.Resources.Ledger.Canonical.{
  verified-inv, verified_idem, scan_all-append, scan_all-one, scan_event-inv,
}

pub seen-append :
    (id : ℕ) (es : List ResourceEvent) (e : ResourceEvent)
    → seen id es ≡ none
    → (metadata e).event_id ≡ id
    → seen id (es ++ e ∷ []) ≡ some e
seen-append id [] e new same = ground arith
seen-append id (x ∷ es) e new same = ground (arith, seen-append id es e)

none-ne-some {ℓ} : {A : Type ℓ} {a : A} → ◌≡◌ {A = Option A} none (some a) → ⊥
none-ne-some h = cc

append_known :
    (l : ResourceLedger) (e old : ResourceEvent) {l' : ResourceLedger}
    → seen (metadata e).event_id l.events ≡ some old
    → append_validated l e ≡ ok l'
    → (l' ≡ l) × (same_content old e ≡ true)
unfolding append_validated
append_known l e old found h = elim (Bool-cases (same_content old e)) [
  | inl same ↦ (sym (ok-injective (rw (found, append_validated, same) at h)), same)
  | inr other ↦ absurd (ok-ne-err (sym (rw (found, append_validated, other) at h)))
]

-- A log that validation has left: validating it once more changes nothing.
abbrev pub IsValidated : ResourceLedger → Type 0
IsValidated l = verified l ≡ ok l

validated-scan :
    (l : ResourceLedger)
    → IsValidated l
    → (s : Scan) × (scan_all (start l.capacity) l.events ≡ ok s) × (s.unique ≡ l.events)
validated-scan l h =
    let (s, scanned, same, _) = verified-inv l h in
    (s, scanned, sym (ap (λ (k : ResourceLedger). k.events) same))

-- The scan of a validated log and one event more is the scan of that event.
scan-append :
    (l : ResourceLedger) (e : ResourceEvent) (s : Scan) {s' : Scan}
    → scan_all (start l.capacity) l.events ≡ ok s
    → scan_all (start l.capacity) (l.events ++ e ∷ []) ≡ ok s'
    → scan_event s e ≡ ok s'
scan-append l e s scanned h =
    sym (scan_all-one s e)
    ∙ sym (ap (λ (m : Result LedgerError Scan). m >>= λ t. scan_all t (e ∷ [])) scanned)
    ∙ sym (scan_all-append (start l.capacity) l.events (e ∷ []))
    ∙ h

append_new :
    (l : ResourceLedger) (e : ResourceEvent) {l' : ResourceLedger}
    → IsValidated l
    → seen (metadata e).event_id l.events ≡ none
    → verified (record l { events = l.events ++ e ∷ [] }) ≡ ok l'
    → l' ≡ record l { events = l.events ++ e ∷ [] }
append_new l e v new h =
    let (s, scanned, log) = validated-scan l v in
    let (s', scanned', same, _) = verified-inv (record l { events = l.events ++ e ∷ [] }) h in
    elim (scan_event-inv s e (scan-append l e s scanned scanned')) [
      | inl (_, old, found, _) ↦
          absurd (none-ne-some (sym new ∙ sym (ap (seen (metadata e).event_id) log) ∙ found))
      | inr (grown, _, _) ↦
          same
          ∙ ap (λ (es : List ResourceEvent). record l { events = es })
              (grown ∙ ap (λ (es : List ResourceEvent). es ++ e ∷ []) log)
    ]

-- An accepted append of a new event puts it at the end of the validated log and changes nothing
-- else; of an event that the log has with the same content, it leaves the log as it is. The result
-- is validated, and holds the event.
pub append_validated-inv :
    (l : ResourceLedger) (e : ResourceEvent) {l' : ResourceLedger}
    → IsValidated l
    → append_validated l e ≡ ok l'
    → IsValidated l'
      × ((l' ≡ l)
          ⊎ ((seen (metadata e).event_id l.events ≡ none)
              × (l' ≡ record l { events = l.events ++ e ∷ [] })))
      × (old : ResourceEvent) × (seen (metadata e).event_id l'.events ≡ some old)
      × (same_content old e ≡ true)
unfolding append_validated
append_validated-inv l e v h = elim (Option-cases (seen (metadata e).event_id l.events)) [
  | inl new ↦
      let fresh = rw (new, append_validated) at h in
      let grown = append_new l e v new fresh in
      (
        verified_idem (record l { events = l.events ++ e ∷ [] }) fresh,
        inr (new, grown),
        e,
        ap (λ (k : ResourceLedger). seen (metadata e).event_id k.events) grown
            ∙ seen-append (metadata e).event_id l.events e new refl,
        same_content_self e,
      )
  | inr (old, found) ↦
      let (same, alike) = append_known l e old found h in
      (subst IsValidated (sym same) v, inl same, old, rw same found, alike)
]

-- `append`, from any ledger: the result is validated, and appending the same event once more
-- returns it unchanged, also at the limit on deliveries.
pub append-retry :
    (l : ResourceLedger) (e : ResourceEvent) {l' : ResourceLedger}
    → append l e ≡ ok l'
    → IsValidated l' × (append l' e ≡ ok l')
unfolding append append_validated
append-retry l e h =
    let (k, valid, appended) = >>=-eq-ok (verified l) (λ m. append_validated m e) h in
    let (again, _, old, found, alike) = append_validated-inv k e (verified_idem l valid) appended in
    (again, rw (again, found, append_validated, alike))
