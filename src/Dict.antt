-- ===== src/Dict.antt =====
-- Python's `dict` with text keys, in insertion order: `d[k] = v`, `d.get(k)`, `d.pop(k, None)`
-- and `d.values()`. An assignment to a key that is there keeps its place.
use mathlib.Core.Path.{subst₂}
use mathlib.Core.Option.{some-injective}
use secure_orchestration_mes.Prelude.{
  ℕ, String, ◌≡◌, refl, ◌≢◌, Bool, Option, none, some, List, [], ◌∷◌, arith, str_eq, eq_iff,
  eq_refl, if◌then◌else◌, Bool-cases, All, All-imp, inl, inr, sym, subst, ◌+◌,
}

abbrev pub Dict {ℓ} : Type ℓ → Type ℓ
Dict V = List (String × V)

module _ {ℓ} {V : Type ℓ} where
  unfoldable pub get : Dict V → String → Option V
  get [] k = none
  get ((j, v) ∷ d) k = if str_eq j k then some v else get d k

  unfoldable pub put : Dict V → String → V → Dict V
  put [] k v = (k, v) ∷ []
  put ((j, w) ∷ d) k v = if str_eq j k then (j, v) ∷ d else (j, w) ∷ put d k v

  unfoldable pub pop : Dict V → String → Dict V
  pop [] k = []
  pop ((j, w) ∷ d) k = let rest = pop d k in if str_eq j k then rest else (j, w) ∷ rest

  unfoldable pub values : Dict V → List V
  values [] = []
  values ((j, v) ∷ d) = v ∷ values d

  pub get-put :
      (d : Dict V) (k j : String) (v : V)
      → get (put d k v) j ≡ (if str_eq k j then some v else get d j)
  unfolding get put
  get-put [] k j v = refl
  get-put ((i, w) ∷ d) k j v = ground (arith, eq_iff k j, eq_iff i k, eq_iff i j, get-put d k j v)

  pub get-pop :
      (d : Dict V) (k j : String) → get (pop d k) j ≡ (if str_eq k j then none else get d j)
  unfolding get pop
  get-pop [] k j = ground arith
  get-pop ((i, w) ∷ d) k j = ground (arith, eq_iff k j, eq_iff i k, eq_iff i j, get-pop d k j)

  pub get-put_self : (d : Dict V) (k : String) (v : V) → get (put d k v) k ≡ some v
  get-put_self d k v = simp (get-put, eq_refl)

  pub get-put_ne : (d : Dict V) (k j : String) (v : V) → k ≢ j → get (put d k v) j ≡ get d j
  get-put_ne d k j v h = simp get-put (ground (arith, eq_iff k j))

  -- How many values pass a test, `sum(1 for v in d.values() if p(v))`.
  unfoldable pub count : (V → Bool) → List V → ℕ
  count p [] = 0
  count p (v ∷ vs) = (if p v then 1 else 0) + count p vs

  -- Overwriting the value `old` of a key changes the count by that one value.
  pub count-put :
      (p : V → Bool) (d : Dict V) (k : String) (v old : V)
      → get d k ≡ some old
      → count p (values (put d k v)) + (if p old then 1 else 0)
        ≡ count p (values d) + (if p v then 1 else 0)
  unfolding get put values count
  count-put p [] k v old h = cc
  count-put p ((j, w) ∷ d) k v old h = ground (arith, count-put p d k v old)

module _ {ℓ κ} {V : Type ℓ} (P : String → V → Type κ) where
  abbrev pub AllEntries : Dict V → Type κ
  AllEntries [] = Unit
  AllEntries ((j, v) ∷ d) = P j v × AllEntries d

  pub put-AllEntries :
      (d : Dict V) (k : String) (v : V) → AllEntries d → P k v → AllEntries (put d k v)
  unfolding put
  put-AllEntries [] k v a p = (p, tt)
  put-AllEntries ((j, w) ∷ d) k v a p = elim (Bool-cases (str_eq j k)) [
    | inl same ↦ rw same (subst (λ i. P i v) (sym ((eq_iff j k).0 same)) p, a.1)
    | inr other ↦ rw other (a.0, put-AllEntries d k v a.1 p)
  ]

  pub pop-AllEntries : (d : Dict V) (k : String) → AllEntries d → AllEntries (pop d k)
  unfolding pop
  pop-AllEntries [] k a = tt
  pop-AllEntries ((j, w) ∷ d) k a = elim (Bool-cases (str_eq j k)) [
    | inl same ↦ rw same (pop-AllEntries d k a.1)
    | inr other ↦ rw other (a.0, pop-AllEntries d k a.1)
  ]

  pub get-AllEntries : (d : Dict V) (k : String) (v : V) → AllEntries d → get d k ≡ some v → P k v
  unfolding get
  get-AllEntries [] k v a h = absurd (cc)
  get-AllEntries ((j, w) ∷ d) k v a h = elim (Bool-cases (str_eq j k)) [
    | inl same ↦ subst₂ P ((eq_iff j k).0 same) (some-injective w v (rw same at h)) a.0
    | inr other ↦ get-AllEntries d k v a.1 (rw other at h)
  ]

-- Every key stands once, as in a Python dictionary.
module _ {ℓ} {V : Type ℓ} where
  abbrev pub IsDistinct : Dict V → Type ℓ
  IsDistinct [] = Unit
  IsDistinct ((j, v) ∷ d) = (get d j ≡ none) × IsDistinct d

  pub put-IsDistinct : (d : Dict V) (k : String) (v : V) → IsDistinct d → IsDistinct (put d k v)
  unfolding put
  put-IsDistinct [] k v h = (unfold get in refl, tt)
  put-IsDistinct ((j, w) ∷ d) k v h = elim (Bool-cases (str_eq j k)) [
    | inl same ↦ rw same h
    | inr other ↦
        rw other
          (ground (arith, get-put d k j v, eq_iff k j, eq_iff j k, h.0), put-IsDistinct d k v h.1)
  ]

  pub pop-IsDistinct : (d : Dict V) (k : String) → IsDistinct d → IsDistinct (pop d k)
  unfolding pop
  pop-IsDistinct [] k h = tt
  pop-IsDistinct ((j, w) ∷ d) k h = elim (Bool-cases (str_eq j k)) [
    | inl same ↦ rw same (pop-IsDistinct d k h.1)
    | inr other ↦ rw other (ground (arith, get-pop d k j, h.0), pop-IsDistinct d k h.1)
  ]

  -- Where each key is the name of its value, a value is found under its name.
  pub get-values :
      (name : V → String) (d : Dict V)
      → AllEntries (λ k v. k ≡ name v) d
      → IsDistinct d
      → All (λ v. get d (name v) ≡ some v) (values d)
  unfolding get values
  get-values name [] n h = tt
  get-values name ((j, w) ∷ d) n h = (
    ground (arith, n.0, eq_iff j (name w)),
    All-imp (λ v found. ground (arith, eq_iff j (name v), h.0)) (values d)
        (get-values name d n.1 h.1),
  )

  -- What holds of the entries holds of the values.
  pub AllEntries-values {κ} :
      (P : V → Type κ) (d : Dict V) → AllEntries (λ k v. P v) d → All P (values d)
  unfolding values
  AllEntries-values P [] h = tt
  AllEntries-values P ((j, w) ∷ d) h = (h.0, AllEntries-values P d h.1)

module _ {ℓ κ} {V : Type ℓ} {P Q : String → V → Type κ} where
  pub AllEntries-imp :
      ((k : String) (v : V) → P k v → Q k v) → (d : Dict V) → AllEntries P d → AllEntries Q d
  AllEntries-imp f [] h = tt
  AllEntries-imp f ((j, w) ∷ d) h = (f j w h.0, AllEntries-imp f d h.1)
