-- ===== src/Audit/Fields.antt =====
-- What the text of an entry says of its fields: `record` joins them with bars and escapes none.
use Prim.Native.Char.{code}
use Prim.Native.String.{String, ◌++◌ as ◌+++◌}
use text.Mathlib.TextLemmas.{
  append_cancel_left, cons-append, nil-append, append_cancel_right, head-eq_of_cons-eq,
  tail-eq_of_cons-eq,
}
use secure_orchestration_mes.Prelude.{
  ◌≡◌, ◌≢◌, ◌⊎◌, inl, inr, refl, ap, sym, ◌∙◌, none, List, [], ◌∷◌, map, All, arith, str_eq, eq_iff,
  eq_refl, Bool-cases,
}
use secure_orchestration_mes.Audit.{
  AuditEntry, Hashes, Event, hashed_text, event_of, hashes_of, mismatch,
}
use secure_orchestration_mes.Audit.Chain.{mismatch-cons}

-- A text without a bar.
abbrev pub IsPlain : String → Type 0
IsPlain String.[] = Unit
IsPlain (String.◌∷◌ c s) = (code c ≢ 124) × IsPlain s

starts_bar : (s : String) → String.◌∷◌ "|" ("" +++ s) ≡ "" +++ "|" +++ s
starts_bar s = sym (cons-append "|" "" s) ∙ sym (nil-append ("|" +++ s))

-- Two texts up to the first bar, and the rest.
split_at_bar :
    (a b s t : String)
    → IsPlain a
    → IsPlain b
    → a +++ "|" +++ s ≡ b +++ "|" +++ t
    → (a ≡ b) × (s ≡ t)
split_at_bar String.[] String.[] s t h k e =
    (refl, append_cancel_left "|" s t (append_cancel_left "" ("|" +++ s) ("|" +++ t) e))
split_at_bar String.[] (String.◌∷◌ d b) s t h k e =
    absurd
      (k.0 (sym (ap code (head-eq_of_cons-eq (starts_bar s ∙ e ∙ cons-append d b ("|" +++ t))))))
split_at_bar (String.◌∷◌ c a) String.[] s t h k e = absurd (
    h.0 (ap code (head-eq_of_cons-eq (sym (cons-append c a ("|" +++ s)) ∙ e ∙ sym (starts_bar t)))))
split_at_bar (String.◌∷◌ c a) (String.◌∷◌ d b) s t h k e =
    let e' = sym (cons-append c a ("|" +++ s)) ∙ e ∙ cons-append d b ("|" +++ t) in
    let (same, rest) = split_at_bar a b s t h.1 k.1 (tail-eq_of_cons-eq e') in
    (cc (head-eq_of_cons-eq e', same), rest)

-- The fields before the detail, the id, the time, the kind and the two ids, have no bar.
pub record HasPlainFields (e : Event) : Type 0 where
  pub entry_id : IsPlain e.entry_id
  pub timestamp : IsPlain e.timestamp
  pub event_type : IsPlain e.event_type
  pub agent_id : IsPlain e.agent_id
  pub task_id : IsPlain e.task_id

hashed_text-injective :
    (e e' : Event) (previous : String)
    → HasPlainFields e
    → HasPlainFields e'
    → hashed_text e previous ≡ hashed_text e' previous
    → e ≡ e'
unfolding hashed_text
hashed_text-injective e e' previous h h' same =
    let (ids, same1) = split_at_bar e.entry_id e'.entry_id _ _ h.entry_id h'.entry_id same in
    let (times, same2) = split_at_bar e.timestamp e'.timestamp _ _ h.timestamp h'.timestamp same1 in
    let (kinds, same3) =
      split_at_bar e.event_type e'.event_type _ _ h.event_type h'.event_type same2 in
    let (agents, same4) = split_at_bar e.agent_id e'.agent_id _ _ h.agent_id h'.agent_id same3 in
    let (tasks, same5) = split_at_bar e.task_id e'.task_id _ _ h.task_id h'.task_id same4 in
    let details = append_cancel_right e.detail e'.detail ("|" +++ previous) same5 in
    cc (ids, times, kinds, agents, tasks, details)

module _ (h : Hashes) where
  -- Somewhere in the two tables two entries in the same place have different texts with one hash.
  abbrev pub Collides : (previous : String) (rows rows' : List AuditEntry) → Type 0
  Collides previous [] rows' = ⊥
  Collides previous (r ∷ rows) [] = ⊥
  Collides previous (r ∷ rows) (r' ∷ rows') =
      (hashed_text (event_of r) previous ≢ hashed_text (event_of r') previous)
        × (h.hexdigest (hashed_text (event_of r) previous)
            ≡ h.hexdigest (hashed_text (event_of r') previous))
      ⊎ Collides r.entry_hash rows rows'

  -- Two tables that verify and store the same hashes hold the same events, field by field and in the
  -- same order, or two entries in the same place of the two have different texts with one hash. The
  -- fields before the detail have no bar, which separates them in the text.
  pub same_hashes-events :
      (previous : String) (rows rows' : List AuditEntry)
      → hashes_of rows ≡ hashes_of rows'
      → mismatch h previous rows ≡ none
      → mismatch h previous rows' ≡ none
      → All (λ r. HasPlainFields (event_of r)) rows
      → All (λ r. HasPlainFields (event_of r)) rows'
      → (map event_of rows ≡ map event_of rows') ⊎ Collides previous rows rows'
  same_hashes-events previous [] [] same sound sound' plain plain' = inl refl
  same_hashes-events previous [] (r' ∷ rows') same sound sound' plain plain' = absurd (cc)
  same_hashes-events previous (r ∷ rows) [] same sound sound' plain plain' = absurd (cc)
  same_hashes-events previous (r ∷ rows) (r' ∷ rows') same sound sound' plain plain' =
      let text = hashed_text (event_of r) previous in
      let text' = hashed_text (event_of r') previous in
      let (good, rest) = mismatch-cons h previous r rows sound in
      let (good', rest') = mismatch-cons h previous r' rows' sound' in
      let (heads, tails) : (r.entry_hash ≡ r'.entry_hash) × (hashes_of rows ≡ hashes_of rows') =
        (cc, cc) in
      elim (Bool-cases (str_eq text text')) [
        | inr differ ↦
            inr (
              inl (λ e. absurd (ground (arith, differ, e, eq_refl text)), good ∙ heads ∙ sym good'))
        | inl alike ↦
            let event =
              hashed_text-injective (event_of r) (event_of r') previous plain.0 plain'.0
                ((eq_iff text text').0 alike) in
            elim (same_hashes-events r.entry_hash rows rows' tails rest (rw heads rest') plain.1
              plain'.1) [
                | inl events ↦ inl (cc (event, events))
                | inr collision ↦ inr (inr collision)
              ]
      ]
