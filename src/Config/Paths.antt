-- ===== src/Config/Paths.antt =====
-- What the overrides of orchestrator/config.py leave at the paths of a configuration.
use mathlib.Core.Option.{some-injective}
use secure_orchestration_mes.Prelude.{
  ◌≡◌, refl, sym, ap, ◌∙◌, subst, String, str_eq, if◌then◌else◌, Bool, true, false, Option, none,
  some, List, [], ◌∷◌, ◌++◌, ◌>>=◌, bind-some, arith, eq_iff, eq_refl, Bool-cases, All, inl, inr,
}
use secure_orchestration_mes.Json.{
  Json, null, boolean, integer, floating, text, array, object, Members, empty, member, get_member,
  put_member, or_else,
}
use secure_orchestration_mes.Config.{
  Texts, after_prefix, set_at, value_of, path_of, override_at, override, env_override,
}

get_member-put_member :
    (d : Members) (k j : String) (v : Json)
    → get_member (put_member d k v) j ≡ (if str_eq k j then some v else get_member d j)
unfolding get_member put_member
get_member-put_member empty k j v = refl
get_member-put_member (member i w d) k j v =
    ground (arith, eq_iff k j, eq_iff i k, eq_iff i j, get_member-put_member d k j v)

-- The value at the end of a path.
unfoldable pub get_at : Json → List String → Option Json
get_at v [] = some v
get_at (object d) (k ∷ ks) = get_member d k >>= λ v. get_at v ks
get_at v (k ∷ ks) = none

-- Two paths that part at some key.
unfoldable pub diverge : List String → List String → Bool
diverge [] ks = false
diverge (j ∷ js) [] = false
diverge (j ∷ js) (k ∷ ks) = if str_eq j k then diverge js ks else true

-- An assignment at a longer path goes through a dictionary.
abbrev IsStep : Json → String → List String → Json → Json → Type 0
IsStep v k ks w v' =
    (d : Members) × (u : Json) × (v ≡ object d)
    × (set_at (or_else (object empty) (get_member d k)) ks w ≡ some u)
    × (v' ≡ object (put_member d k u))

set_at-IsStep :
    (v : Json) (k : String) (ks : List String) (w v' : Json)
    → set_at v (k ∷ ks) w ≡ some v'
    → IsStep v k ks w v'
unfolding set_at
set_at-IsStep (object d) k ks w v' h =
    let (u, e, f) = bind-some (set_at (or_else (object empty) (get_member d k)) ks w) _ v' h in
    (d, u, refl, e, sym (some-injective (object (put_member d k u)) v' f))
set_at-IsStep null k ks w v' h = absurd (cc)
set_at-IsStep (boolean b) k ks w v' h = absurd (cc)
set_at-IsStep (integer z) k ks w v' h = absurd (cc)
set_at-IsStep (floating x) k ks w v' h = absurd (cc)
set_at-IsStep (text s) k ks w v' h = absurd (cc)
set_at-IsStep (array vs) k ks w v' h = absurd (cc)

get_at-put_member :
    (d : Members) (k j : String) (js : List String) (u : Json)
    → get_at (object (put_member d k u)) (j ∷ js)
      ≡ (if str_eq k j then get_at u js else get_at (object d) (j ∷ js))
unfolding get_at
get_at-put_member d k j js u = elim (Bool-cases (str_eq k j)) [
  | inl same ↦ rw (get_member-put_member, same) refl
  | inr other ↦ rw (get_member-put_member, other) refl
]

get_at-set_at :
    (v : Json) (ks : List String) (w v' : Json) → set_at v ks w ≡ some v' → get_at v' ks ≡ some w
unfolding set_at
get_at-set_at v [] w v' h = unfold get_at in sym h
get_at-set_at v (k ∷ ks) w v' h =
    let (d, u, e, f, g) = set_at-IsStep v k ks w v' h in
    rw (g, get_at-put_member, eq_refl)
      (get_at-set_at (or_else (object empty) (get_member d k)) ks w u f)

get_at-new : (ks js : List String) → diverge ks js ≡ true → get_at (object empty) js ≡ none
unfolding diverge get_at get_member
get_at-new [] js p = absurd (cc)
get_at-new (k ∷ ks) [] p = absurd (cc)
get_at-new (k ∷ ks) (j ∷ js) p = refl

-- A key that is not there counts as an empty dictionary.
get_at-or_else :
    (ks js : List String) (o : Option Json)
    → diverge ks js ≡ true
    → get_at (or_else (object empty) o) js ≡ (o >>= λ v. get_at v js)
get_at-or_else ks js none p = get_at-new ks js p
get_at-or_else ks js (some v) p = refl

get_at-set_at_other :
    (v : Json) (ks : List String) (w v' : Json) (js : List String)
    → set_at v ks w ≡ some v'
    → diverge ks js ≡ true
    → get_at v' js ≡ get_at v js
unfolding diverge
get_at-set_at_other v [] w v' js h p = absurd (cc)
get_at-set_at_other v (k ∷ ks) w v' [] h p = absurd (cc)
get_at-set_at_other v (k ∷ ks) w v' (j ∷ js) h p =
    let (d, u, e, f, g) = set_at-IsStep v k ks w v' h in
    elim (Bool-cases (str_eq k j)) [
      | inl same ↦
          let q : diverge ks js ≡ true = (rw same at p) in
          rw (g, e, get_at-put_member, same)
            (get_at-set_at_other (or_else (object empty) (get_member d k)) ks w u js f q
              ∙ get_at-or_else ks js (get_member d k) q
              ∙ (unfold get_at in rw ((eq_iff k j).0 same) refl))
      | inr other ↦ rw (g, e, get_at-put_member, other) refl
    ]

-- The path of a variable that overrides a setting.
abbrev pub IsOverride : Texts → String → List String → Type 0
IsOverride texts key path =
    (name : String) × (after_prefix "SOM__" key ≡ some name) × (path_of texts name ≡ path)

module _ (texts : Texts) where
  get_at-override :
      (raw raw' : Json) (key value : String) (path : List String)
      → IsOverride texts key path
      → override texts raw (key, value) ≡ some raw'
      → (w : Json) × (value_of texts value ≡ some w) × (get_at raw' path ≡ some w)
  unfolding override
  get_at-override raw raw' key value path (name, p, q) h =
      let (w, e, f) = bind-some (value_of texts value) _ raw' (rw p at h) in
      (
        w,
        e,
        subst (λ path. get_at raw' path ≡ some w) q
            (get_at-set_at raw (path_of texts name) w raw' f),
      )

  -- A variable leaves a path alone: it is no override, or one of a path that parts from it.
  abbrev pub Spares : List String → String → Option String → Type 0
  Spares path key none = Unit
  Spares path key (some name) = diverge (path_of texts name) path ≡ true

  override_at-Spares :
      (raw raw' : Json) (name : Option String) (key value : String) (path : List String)
      → Spares path key name
      → override_at texts raw name value ≡ some raw'
      → get_at raw' path ≡ get_at raw path
  override_at-Spares raw raw' none key value path s h =
      ap (λ v. get_at v path) (sym (some-injective raw raw' h))
  override_at-Spares raw raw' (some name) key value path s h =
      let (w, e, f) = bind-some (value_of texts value) _ raw' h in
      get_at-set_at_other raw (path_of texts name) w raw' path f s

  abbrev pub AllSpare : List String → List (String × String) → Type 0
  AllSpare path = All (λ variable. Spares path variable.0 (after_prefix "SOM__" variable.0))

  -- Where every variable of the environment is of another prefix or of a path that parts from
  -- a given one, the setting at that path stays the file's.
  env_override-AllSpare :
      (environ : List (String × String)) (raw raw' : Json) (path : List String)
      → AllSpare path environ
      → env_override texts raw environ ≡ some raw'
      → get_at raw' path ≡ get_at raw path
  unfolding env_override override
  env_override-AllSpare [] raw raw' path s h =
      ap (λ v. get_at v path) (sym (some-injective raw raw' h))
  env_override-AllSpare ((key, value) ∷ environ) raw raw' path s h =
      let (mid, e, f) = bind-some (override texts raw (key, value)) _ raw' h in
      env_override-AllSpare environ mid raw' path s.1 f
      ∙ override_at-Spares raw mid (after_prefix "SOM__" key) key value path s.0 e

  -- A variable of the environment decides the setting at its path, whatever the file and the
  -- variables before it say, where the variables after it are of other prefixes or of paths that part
  -- from its own.
  pub env_override-decides :
      (before after : List (String × String)) (key value : String) (raw raw' : Json)
      (path : List String)
      → IsOverride texts key path
      → AllSpare path after
      → env_override texts raw (before ++ (key, value) ∷ after) ≡ some raw'
      → (w : Json) × (value_of texts value ≡ some w) × (get_at raw' path ≡ some w)
  unfolding env_override
  env_override-decides [] after key value raw raw' path o s h =
      let (mid, e, f) = bind-some (override texts raw (key, value)) _ raw' h in
      let (w, g, l) = get_at-override raw mid key value path o e in
      (w, g, env_override-AllSpare after mid raw' path s f ∙ l)
  env_override-decides (variable ∷ before) after key value raw raw' path o s h =
      let (mid, e, f) = bind-some (override texts raw variable) _ raw' h in
      env_override-decides before after key value mid raw' path o s f
