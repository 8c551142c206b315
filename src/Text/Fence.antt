-- ===== src/Text/Fence.antt =====
-- A text between markdown fences.
use secure_orchestration_mes.Prelude.{
  ℕ, ◌≡◌, ◌≢◌, refl, sym, ap, ◌∙◌, true, Bool, List, [], ◌∷◌, ◌++◌, All, arith,
}
use mathlib.Core.List.{append_assoc}
use secure_orchestration_mes.Text.{
  Text, newline, is_space, end_with, strip_left, strip_right, strip, starts_with, split_lines,
  ticks, drop_open, drop_close, unfence,
}
use secure_orchestration_mes.Text.Lines.{join-split, split-newline, split_one}

end_with-cons : (c d : ℕ) (s t : Text) → end_with c (s ++ d ∷ t) ≡ c ∷ (s ++ d ∷ t)
end_with-cons c d [] t = refl
end_with-cons c d (x ∷ s) t = refl

-- A text that ends with a text that `rstrip` keeps is kept.
strip_right-append :
    (s : Text) (d : ℕ) (t : Text)
    → strip_right (d ∷ t) ≡ d ∷ t
    → strip_right (s ++ d ∷ t) ≡ s ++ d ∷ t
unfolding strip_right
strip_right-append [] d t h = h
strip_right-append (c ∷ s) d t h =
    ap (end_with c) (strip_right-append s d t h) ∙ end_with-cons c d s t

drop_close-last :
    (closes : Text → Bool) (lines : List Text) (line : Text)
    → closes line ≡ true
    → drop_close closes (lines ++ line ∷ []) ≡ lines
unfolding drop_close
drop_close-last closes [] line h = rw h refl
drop_close-last closes (x ∷ []) line h = rw h refl
drop_close-last closes (x ∷ y ∷ lines) line h =
    ap (λ rest. x ∷ rest) (drop_close-last closes (y ∷ lines) line h)

no_tick : ◌≢◌ {A = ℕ} 96 newline
no_tick e = omega arith

-- The opening line, and the text after it.
abbrev opened : Text → Text → Text
opened info rest = 96 ∷ 96 ∷ 96 ∷ (info ++ newline ∷ rest)

abbrev pub fenced : Text → Text → Text
fenced info body = opened info (body ++ newline ∷ ticks)

strip-fenced : (info body : Text) → strip (fenced info body) ≡ fenced info body
unfolding strip strip_left is_space strip_right
strip-fenced info body =
    let s = 96 ∷ 96 ∷ 96 ∷ (info ++ newline ∷ body) in
    let regroup : fenced info body ≡ s ++ newline ∷ ticks =
      ap (λ r. 96 ∷ 96 ∷ 96 ∷ r) (sym (append_assoc info (newline ∷ body) (newline ∷ ticks))) in
    ap strip_right regroup ∙ strip_right-append s newline ticks refl ∙ sym regroup

-- The text between fences, which may have any lines, comes out as it went in, whatever is written
-- behind the opening fence on its line.
pub unfence-fenced :
    (closes : Text → Bool) (info body : Text)
    → closes ticks ≡ true
    → All (λ c. c ≢ newline) info
    → unfence closes (fenced info body) ≡ body
unfolding unfence starts_with drop_open
unfence-fenced closes info body h one_line =
    let lines : split_lines (fenced info body)
        ≡ (96 ∷ 96 ∷ 96 ∷ info) ∷ (split_lines body ++ ticks ∷ []) =
      split-newline (96 ∷ 96 ∷ 96 ∷ info) (body ++ newline ∷ ticks)
      ∙ ap (λ r. r ++ split_lines (body ++ newline ∷ ticks))
          (split_one (96 ∷ 96 ∷ 96 ∷ info) (no_tick, (no_tick, (no_tick, one_line))))
      ∙ ap (λ r. (96 ∷ 96 ∷ 96 ∷ info) ∷ r)
          (split-newline body ticks
            ∙ ap (λ r. split_lines body ++ r)
                (split_one ticks (no_tick, (no_tick, (no_tick, tt))))) in
    rw (strip-fenced info body, lines, drop_close-last closes (split_lines body) ticks h)
      (join-split body)
