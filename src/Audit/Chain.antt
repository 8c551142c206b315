-- ===== src/Audit/Chain.antt =====
-- What `record` keeps of the chain of hashes, and what `verify_chain` says of a table.
use secure_orchestration_mes.Prelude.{
  ℕ, ◌+◌, String, ◌≡◌, refl, ap, ◌∙◌, sym, ◌⊎◌, inl, inr, true, Bool-cases, Option-cases, str_eq,
  eq_iff, eq_refl, Option, none, some, List, [], ◌∷◌, ◌++◌, arith, length, any, ◌%◌, ◌==◌,
}
use secure_orchestration_mes.Audit.{
  AuditEntry, Hashes, AuditTrail, Event, hashed_text, event_of, hashes_of, root, range_error,
  endless, Root, store_root, snapshot, ensured, entry_for, is_known, append_event, insert,
  record_event, mismatch, leaves_of, build_merkle_root,
}

-- The hash that the next entry is chained to.
abbrev pub last_of : String → List AuditEntry → String
last_of hash [] = hash
last_of hash (row ∷ rows) = last_of row.entry_hash rows

module _ (h : Hashes) where
  -- The object agrees with the table, and the chain of the table is right.
  pub record IsChained (t : AuditTrail) : Type 0 where
    pub started : t.initialized ≡ true
    pub linked : t.last_hash ≡ some (last_of "" t.audit_log)
    pub sound : mismatch h "" t.audit_log ≡ none

  mismatch-append :
      (prev : String) (rows : List AuditEntry) (row : AuditEntry)
      → mismatch h prev rows ≡ none
      → row.entry_hash ≡ h.hexdigest (hashed_text (event_of row) (last_of prev rows))
      → mismatch h prev (rows ++ (row ∷ [])) ≡ none
  unfolding mismatch
  mismatch-append prev [] row sound right = ground (arith, right, eq_refl row.entry_hash)
  mismatch-append prev (r ∷ rows) row sound right =
      elim (Bool-cases (str_eq (h.hexdigest (hashed_text (event_of r) prev)) r.entry_hash)) [
        | inl good ↦
            let rest : mismatch h r.entry_hash rows ≡ none = rw good at sound in
            rw good (mismatch-append r.entry_hash rows row rest right)
        | inr bad ↦ absurd (ground (arith, sound, bad))
      ]

  last_of-append :
      (prev : String) (rows : List AuditEntry) (row : AuditEntry)
      → last_of prev (rows ++ (row ∷ [])) ≡ row.entry_hash
  last_of-append prev [] row = refl
  last_of-append prev (r ∷ rows) row = last_of-append r.entry_hash rows row

  -- The same table and object, but for the Merkle roots.
  abbrev SameChain : AuditTrail → AuditTrail → Type 0
  SameChain s t =
      (s.audit_log ≡ t.audit_log) × (s.last_hash ≡ t.last_hash) × (s.initialized ≡ t.initialized)

  store_root-same :
      (entry : AuditEntry) (t : AuditTrail) (size : ℕ) (r : Root)
      → SameChain (store_root h entry t size r).1 t
  unfolding store_root
  store_root-same entry t size (root hash) = (refl, refl, refl)
  store_root-same entry t size range_error = (refl, refl, refl)
  store_root-same entry t size endless = (refl, refl, refl)

  snapshot-same : (entry : AuditEntry) (t : AuditTrail) → SameChain (snapshot h entry t).1 t
  unfolding snapshot
  snapshot-same entry t = elim (Option-cases (leaves_of h (hashes_of t.audit_log))) [
    | inl bad ↦ rw (snapshot, bad) (refl, refl, refl)
    | inr (leaves, good) ↦
        rw (snapshot, good)
          (store_root-same entry t (length leaves) (build_merkle_root h t.merkle_branching leaves))
  ]

  same-IsChained : (s t : AuditTrail) → SameChain s t → IsChained t → IsChained s
  same-IsChained s t (same, linked, started) c = record {
    started = started ∙ c.started;
    linked = rw same (linked ∙ c.linked);
    sound = rw same c.sound;
  }

  -- The table is what it was, or has one more row, which is of the event.
  abbrev pub Grows : Event → AuditTrail → AuditTrail → Type 0
  Grows e t t' =
      (t'.audit_log ≡ t.audit_log)
      ⊎ ((row : AuditEntry) × (event_of row ≡ e) × (t'.audit_log ≡ t.audit_log ++ (row ∷ [])))

  text_of : Option String → String
  text_of none = ""
  text_of (some text) = text

  insert-IsChained :
      (e : Event) (t : AuditTrail) (previous : String)
      → t.last_hash ≡ some previous
      → IsChained t
      → IsChained (insert h (entry_for h e previous) t).1
        × Grows e t (insert h (entry_for h e previous) t).1
  unfolding insert text_of event_of
  insert-IsChained e t previous linked c =
      let entry = entry_for h e previous in
      let stored = record t {
        audit_log = t.audit_log ++ (entry ∷ []);
        last_hash = some entry.entry_hash;
        entry_count = t.entry_count + 1;
      } in
      let chained : IsChained stored = record {
        started = c.started;
        linked = ap some (sym (last_of-append "" t.audit_log entry));
        sound =
            mismatch-append "" t.audit_log entry c.sound
              (ap (λ x. h.hexdigest (hashed_text e x)) (ap text_of (sym linked ∙ c.linked)));
      } in
      elim (Bool-cases (any (λ row. str_eq row.entry_id e.entry_id) t.audit_log)) [
        | inl taken ↦ rw taken (c, inl refl)
        | inr new ↦ rw new (elim (Bool-cases ((t.entry_count + 1) % 1000 == 0)) [
          | inl due ↦
              let same = snapshot-same entry stored in
              rw due (same-IsChained _ stored same chained, inr (entry, refl, same.0))
          | inr not_due ↦ rw not_due (chained, inr (entry, refl, refl))
        ])
      ]

  append_event-IsChained :
      (e : Event) (t : AuditTrail) (last : Option String)
      → t.last_hash ≡ last
      → IsChained t
      → IsChained (append_event h e t last).1 × Grows e t (append_event h e t last).1
  unfolding append_event
  append_event-IsChained e t none linked c = (c, inl refl)
  append_event-IsChained e t (some previous) linked c = insert-IsChained e t previous linked c

  pub ensured-started : (t : AuditTrail) → t.initialized ≡ true → ensured h t ≡ t
  unfolding ensured
  ensured-started t started = rw started refl

  -- A call of `record` with an agreeing object keeps the agreement and the chain, however it ends,
  -- and only appends: the table stays what it was, or has one more row, the event of the call.
  pub record_event-IsChained :
      (e : Event) (t : AuditTrail)
      → IsChained t
      → IsChained (record_event h e t).1 × Grows e t (record_event h e t).1
  unfolding record_event
  record_event-IsChained e t c = elim (Bool-cases (is_known e.event_type)) [
    | inl known ↦
        rw (known, ensured-started t c.started) (append_event-IsChained e t t.last_hash refl c)
    | inr unknown ↦ rw unknown (c, inl refl)
  ]

  pub mismatch-cons :
      (prev : String) (row : AuditEntry) (rows : List AuditEntry)
      → mismatch h prev (row ∷ rows) ≡ none
      → (h.hexdigest (hashed_text (event_of row) prev) ≡ row.entry_hash)
        × (mismatch h row.entry_hash rows ≡ none)
  unfolding mismatch
  mismatch-cons prev row rows sound =
      let computed = h.hexdigest (hashed_text (event_of row) prev) in
      elim (Bool-cases (str_eq computed row.entry_hash)) [
        | inl good ↦ ((eq_iff computed row.entry_hash).0 good, rw good at sound)
        | inr bad ↦ absurd (ground (arith, sound, bad))
      ]
