-- ===== src/Audit/Fresh.antt =====
-- An audit trail whose table is empty.
use secure_orchestration_mes.Prelude.{
  ◌≡◌, refl, ◌∙◌, ap, ◌⊎◌, inl, inr, false, Bool-cases, Option, none, some, String, List, [], ◌∷◌,
  All,
}
use secure_orchestration_mes.Audit.{
  Hashes, AuditTrail, Event, hashes_of, Recorded, initialize, ensured, is_known, append_event,
  record_event, value_error, integrity_error,
}
use secure_orchestration_mes.Audit.Chain.{ensured-started}

-- The table is empty, and so is what was read of it, if it was read.
pub record IsUnstarted (t : AuditTrail) : Type 0 where
  pub empty : t.audit_log ≡ []
  pub unlinked : (t.initialized ≡ false) ⊎ (t.last_hash ≡ none)

module _ (h : Hashes) (null : h.bare_column [] ≡ none) where
  -- The outcomes of calls of `record`, one after the other.
  unfoldable pub record_events : List Event → AuditTrail → List Recorded × AuditTrail
  record_events [] t = ([], t)
  record_events (e ∷ events) t =
      let (r, t') = record_event h e t in let (rs, t'') = record_events events t' in (r ∷ rs, t'')

  ensured-empty :
      (t : AuditTrail)
      → IsUnstarted t
      → ((ensured h t).audit_log ≡ []) × ((ensured h t).last_hash ≡ none)
  unfolding ensured initialize
  ensured-empty t u = elim (Bool-cases t.initialized) [
    | inl started ↦ elim u.unlinked [
      | inl stopped ↦ absurd (cc)
      | inr unlinked ↦ rw (ensured-started h t started) (u.empty, unlinked)
    ]
    | inr stopped ↦ rw stopped (u.empty, ap (λ rows. h.bare_column (hashes_of rows)) u.empty ∙ null)
  ]

  -- What one call does.
  Fails : Recorded × AuditTrail → Type 0
  Fails (r, t) = ((r ≡ value_error) ⊎ (r ≡ integrity_error)) × IsUnstarted t

  append_event-Fails :
      (e : Event) (t : AuditTrail) (last : Option String)
      → last ≡ none
      → t.last_hash ≡ none
      → t.audit_log ≡ []
      → Fails (append_event h e t last)
  unfolding append_event Fails
  append_event-Fails e t none e' unlinked empty =
      (inr refl, record { empty = empty; unlinked = inr unlinked })
  append_event-Fails e t (some previous) e' unlinked empty = absurd (cc)

  record_event-Fails : (e : Event) (t : AuditTrail) → IsUnstarted t → Fails (record_event h e t)
  unfolding record_event Fails
  record_event-Fails e t u = elim (Bool-cases (is_known e.event_type)) [
    | inl known ↦
        let (empty, unlinked) = ensured-empty t u in
        rw known
          (append_event-Fails e (ensured h t) (ensured h t).last_hash unlinked unlinked empty)
    | inr unknown ↦ rw (unknown, Fails) (inl refl, u)
  ]

  -- As long as the table is empty, no call of `record` stores an entry, whatever the events are:
  -- each ends with an exception, and the table stays empty, where the query of an empty table
  -- answers NULL.
  pub empty_never_records :
      (events : List Event) (t : AuditTrail)
      → IsUnstarted t
      → All (λ r. (r ≡ value_error) ⊎ (r ≡ integrity_error)) (record_events events t).0
        × IsUnstarted (record_events events t).1
  unfolding record_events Fails
  empty_never_records [] t u = (tt, u)
  empty_never_records (e ∷ events) t u =
      let (failed, still) = record_event-Fails e t u in
      let (rest, last) = empty_never_records events (record_event h e t).1 still in
      ((failed, rest), last)
