-- ===== src/Config/Names.antt =====
-- The names of variables in orchestrator/config.py: the keys of a setting, with two underscores
-- between them.
use Prim.Native.Char.{Char}
use secure_orchestration_mes.Prelude.{
  ◌≡◌, refl, ap, ◌∙◌, String, Bool, true, false, not, ◌&&◌, List, [], ◌∷◌, All, arith,
}
use secure_orchestration_mes.Config.{underscore, push, split}

-- A key that does not end in an underscore and has no two in a row.
abbrev pub is_key : String → Bool
is_key String.[] = true
is_key (String.◌∷◌ c String.[]) = not (underscore c)
is_key (String.◌∷◌ c (String.◌∷◌ d s)) =
    not (underscore c && underscore d) && is_key (String.◌∷◌ d s)

pair-is_key :
    (c d : Char) (s : String)
    → is_key (String.◌∷◌ c (String.◌∷◌ d s)) ≡ true
    → ((underscore c && underscore d) ≡ false) × (is_key (String.◌∷◌ d s) ≡ true)
pair-is_key c d s h = ground arith

-- A key and two underscores before a name.
abbrev pub before : String → String → String
before String.[] rest = String.◌∷◌ "_" (String.◌∷◌ "_" rest)
before (String.◌∷◌ c s) rest = String.◌∷◌ c (before s rest)

abbrev pub name_of : List String → String
name_of [] = ""
name_of (part ∷ []) = part
name_of (part ∷ part' ∷ parts) = before part (name_of (part' ∷ parts))

single-is_key : (c : Char) → not (underscore c) ≡ true → (underscore c && true) ≡ false
single-is_key c h = ground arith

split-last : (part : String) → is_key part ≡ true → split part ≡ part ∷ []
unfolding split
split-last String.[] h = refl
split-last (String.◌∷◌ c String.[]) h = refl
split-last (String.◌∷◌ c (String.◌∷◌ d s)) h =
    let (p, q) = pair-is_key c d s h in rw (p, split) (ap (push c) (split-last (String.◌∷◌ d s) q))

split-part :
    (part rest : String) → is_key part ≡ true → split (before part rest) ≡ part ∷ split rest
unfolding split
split-part String.[] rest h = refl
split-part (String.◌∷◌ c String.[]) rest h = rw ((single-is_key c h), split) refl
split-part (String.◌∷◌ c (String.◌∷◌ d s)) rest h =
    let (p, q) = pair-is_key c d s h in
    rw (p, split) (ap (push c) (split-part (String.◌∷◌ d s) rest q))

-- The path that a variable's name spells is read back from the name, where no key of it ends in an
-- underscore or has two in a row.
pub split-name_of :
    (part : String) (parts : List String)
    → All (λ key. is_key key ≡ true) (part ∷ parts)
    → split (name_of (part ∷ parts)) ≡ part ∷ parts
split-name_of part [] h = split-last part h.0
split-name_of part (part' ∷ parts) h =
    split-part part (name_of (part' ∷ parts)) h.0
    ∙ ap (λ rest. part ∷ rest) (split-name_of part' parts h.1)
