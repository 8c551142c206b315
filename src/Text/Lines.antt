-- ===== src/Text/Lines.antt =====
-- Splitting a text into lines and joining them again.
use secure_orchestration_mes.Prelude.{
  ℕ, ◌==◌, ◌≡◌, ◌≢◌, refl, sym, ap, ◌∙◌, inl, inr, Bool-cases, List, [], ◌∷◌, ◌++◌, All, arith,
  ==_iff,
}
use secure_orchestration_mes.Text.{Text, newline, push, split_lines, join_lines}

join-push : (c : ℕ) (lines : List Text) → join_lines (push c lines) ≡ c ∷ join_lines lines
unfolding join_lines
join-push c [] = refl
join-push c (line ∷ []) = refl
join-push c (line ∷ line' ∷ lines) = refl

split-cons : (s : Text) → (line : Text) × (lines : List Text) × (split_lines s ≡ line ∷ lines)
unfolding split_lines
split-cons [] = ([], [], refl)
split-cons (c ∷ s) =
    let (line, lines, e) = split-cons s in
    elim (Bool-cases (c == newline)) [
      | inl same ↦ ([], split_lines s, rw same refl)
      | inr other ↦ (c ∷ line, lines, rw (other, e) refl)
    ]

join-newline : (s : Text) → join_lines ([] ∷ split_lines s) ≡ newline ∷ join_lines (split_lines s)
unfolding join_lines
join-newline s = let (line, lines, e) = split-cons s in rw e refl

-- Joining the lines of a text gives the text.
pub join-split : (s : Text) → join_lines (split_lines s) ≡ s
unfolding split_lines join_lines
join-split [] = refl
join-split (c ∷ s) = elim (Bool-cases (c == newline)) [
  | inl same ↦ rw same (
      join-newline s
      ∙ ap (λ r. newline ∷ r) (join-split s)
      ∙ ap (λ d. d ∷ s) (sym ((==_iff c newline).0 same)))
  | inr other ↦ rw other (join-push c (split_lines s) ∙ ap (λ r. c ∷ r) (join-split s))
]

push-append :
    (c : ℕ) (s : Text) (ys : List Text)
    → push c (split_lines s ++ ys) ≡ push c (split_lines s) ++ ys
push-append c s ys = let (line, lines, e) = split-cons s in rw e refl

-- The lines before a newline and those after it.
pub split-newline : (s t : Text) → split_lines (s ++ newline ∷ t) ≡ split_lines s ++ split_lines t
unfolding split_lines
split-newline [] t = refl
split-newline (c ∷ s) t = elim (Bool-cases (c == newline)) [
  | inl same ↦ rw same (ap (λ r. [] ∷ r) (split-newline s t))
  | inr other ↦ rw other (ap (push c) (split-newline s t) ∙ push-append c s (split_lines t))
]

-- A text with no newline is one line.
pub split_one : (s : Text) → All (λ c. c ≢ newline) s → split_lines s ≡ s ∷ []
unfolding split_lines
split_one [] h = refl
split_one (c ∷ s) h = ground (arith, h.0, split_one s h.1)
