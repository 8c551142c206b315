-- ===== src/Knowledge/Matched.antt =====
-- What the alerts that self_update/crawl4ai_pipeline.py reads from a feed are about.
use secure_orchestration_mes.Prelude.{
  ◌≡◌, refl, subst, sym, String, true, Option, none, some, List, [], ◌∷◌, All, contains, occurs_in,
  bind-ensures, bind-some, traverse, inl, inr, Bool-cases, eq_refl, arith, ◌++◌,
}
use mathlib.Core.Option.{some-injective}
use secure_orchestration_mes.Json.{
  Json, text, array, object, item, nil, empty, elements, list_of, floating, finite,
}
use secure_orchestration_mes.Prelude.Int.{pos}
use secure_orchestration_mes.Knowledge.Alerts.{
  Alert, stack_packages, get_of, first_of, text_of, or_falsy, matched, scored_alert, alert_for,
  alert_of, concat, alerts_in, or_none, fetch,
}

module _ (lower : String → String) where
  -- The package is one of the stack, and the description names it.
  abbrev pub IsMatched : Alert → Type 0
  IsMatched a =
      (contains a.affected_package stack_packages ≡ true)
      × (occurs_in (lower a.affected_package) (lower a.description) ≡ true)

  matched-IsNamed :
      (desc : String) (pkgs : List String) (pkg : String)
      → matched lower desc pkgs ≡ some pkg
      → (contains pkg pkgs ≡ true) × (occurs_in (lower pkg) desc ≡ true)
  unfolding matched
  matched-IsNamed desc [] pkg h = absurd (cc)
  matched-IsNamed desc (p ∷ ps) pkg h = elim (Bool-cases (occurs_in (lower p) desc)) [
    | inl here ↦
        let same = some-injective p pkg (rw here at h) in rw⁻¹ same (rw (eq_refl p) refl, here)
    | inr away ↦ let (c, o) = matched-IsNamed desc ps pkg (rw away at h) in (ground (arith, c), o)
  ]

  abbrev IsAbout : String → String → Alert → Type 0
  IsAbout description pkg a = (a.description ≡ description) × (a.affected_package ≡ pkg)

  scored_alert-IsAbout :
      (item' cve_id : Json) (description pkg : String) (a : Alert)
      → scored_alert lower item' cve_id description pkg ≡ some a
      → IsAbout description pkg a
  unfolding scored_alert
  scored_alert-IsAbout item' cve_id description pkg =
      bind-ensures (IsAbout description pkg) (get_of item' "impact" (object empty)) _ (λ impact _.
        bind-ensures (IsAbout description pkg) (get_of impact "baseMetricV2" (object empty)) _
          (λ v2 _.
            bind-ensures (IsAbout description pkg) (get_of impact "baseMetricV3" (object empty)) _
              (λ v3 _.
                bind-ensures (IsAbout description pkg)
                  (get_of (or_falsy v2 v3) "cvssV2" (object empty)) _
                  (λ c2 _.
                    bind-ensures (IsAbout description pkg)
                      (get_of (or_falsy v2 v3) "cvssV3" (object empty)) _
                      (λ c3 _.
                        bind-ensures (IsAbout description pkg)
                          (get_of (or_falsy c2 c3) "baseScore" (floating (finite (pos 0)))) _
                          (λ score _.
                            bind-ensures (IsAbout description pkg)
                              (get_of (or_falsy c2 c3) "severity" (text "UNKNOWN")) _
                              (λ severity _.
                                bind-ensures (IsAbout description pkg)
                                  (get_of item' "publishedDate" (text "")) _
                                  (λ published _. λ a h.
                                    subst (IsAbout description pkg) (some-injective _ a h)
                                      (refl, refl)))))))))

  alert_for-IsMatched :
      (item' cve_id : Json) (description : String) (o : Option String)
      → matched lower (lower description) stack_packages ≡ o
      → (alerts : List Alert) → alert_for lower item' cve_id description o ≡ some alerts
      → All IsMatched alerts
  alert_for-IsMatched item' cve_id description none m alerts h =
      subst (All IsMatched) (some-injective [] alerts h) tt
  alert_for-IsMatched item' cve_id description (some pkg) m alerts h =
      let (a, e, f) = bind-some (scored_alert lower item' cve_id description pkg) _ alerts h in
      let (same, named) = scored_alert-IsAbout item' cve_id description pkg a e in
      let found = matched-IsNamed (lower description) stack_packages pkg m in
      subst (All IsMatched) (some-injective (a ∷ []) alerts f) (
        subst
            (λ q.
              (contains q stack_packages ≡ true)
              × (occurs_in (lower q) (lower a.description) ≡ true))
            (sym named)
            (subst
              (λ d. (contains pkg stack_packages ≡ true) × (occurs_in (lower pkg) (lower d) ≡ true))
              (sym same) found),
        tt,
      )

  alert_of-IsMatched :
      (item' : Json) (alerts : List Alert)
      → alert_of lower item' ≡ some alerts
      → All IsMatched alerts
  unfolding alert_of
  alert_of-IsMatched item' =
      bind-ensures (All IsMatched) (get_of item' "cve" (object empty)) _ (λ cve _.
        bind-ensures (All IsMatched) (get_of cve "CVE_data_meta" (object empty)) _ (λ meta _.
          bind-ensures (All IsMatched) (get_of meta "ID" (text "")) _ (λ cve_id _.
            bind-ensures (All IsMatched) (get_of cve "description" (object empty)) _
              (λ description _.
                bind-ensures (All IsMatched)
                  (get_of description "description_data" (array (item (object empty) nil))) _
                  (λ entries _. bind-ensures (All IsMatched) (first_of entries) _ (λ entry _.
                    bind-ensures (All IsMatched) (get_of entry "value" (text "")) _ (λ value _.
                      bind-ensures (All IsMatched) (text_of value) _ (λ desc _.
                        alert_for-IsMatched item' cve_id desc
                          (matched lower (lower desc) stack_packages) refl))))))))

  append-All :
      (as' bs : List Alert) → All IsMatched as' → All IsMatched bs → All IsMatched (as' ++ bs)
  append-All [] bs h k = k
  append-All (a ∷ as') bs h k = (h.0, append-All as' bs h.1 k)

  batches-IsMatched :
      (vs : List Json) (batches : List (List Alert))
      → traverse (alert_of lower) vs ≡ some batches
      → All IsMatched (concat lower batches)
  unfolding traverse
  batches-IsMatched [] batches h =
      subst (λ b. All IsMatched (concat lower b)) (some-injective [] batches h) tt
  batches-IsMatched (v ∷ vs) batches h =
      let (alerts, e, f) = bind-some (alert_of lower v) _ batches h in
      let (rest, e', f') = bind-some (traverse (alert_of lower) vs) _ batches f in
      subst (λ b. All IsMatched (concat lower b)) (some-injective (alerts ∷ rest) batches f')
        (append-All alerts (concat lower rest) (alert_of-IsMatched v alerts e)
          (batches-IsMatched vs rest e'))

  alerts_in-IsMatched :
      (feed : Json) (alerts : List Alert)
      → alerts_in lower feed ≡ some alerts
      → All IsMatched alerts
  unfolding alerts_in
  alerts_in-IsMatched feed alerts h =
      let (items', _, f) = bind-some (get_of feed "CVE_Items" (array nil)) _ alerts h in
      let (vs, _, f') = bind-some (list_of items') _ alerts f in
      let (batches, e, f'') = bind-some (traverse (alert_of lower) (elements vs)) _ alerts f' in
      subst (All IsMatched) (some-injective (concat lower batches) alerts f'')
        (batches-IsMatched (elements vs) batches e)

  -- Whatever the feed holds, each alert is on a package of the stack that its description names.
  pub fetch-IsMatched : (feed : Option Json) → All IsMatched (fetch lower feed)
  unfolding fetch
  fetch-IsMatched none = tt
  fetch-IsMatched (some feed) = go (alerts_in lower feed) refl
    where
      go : (o : Option (List Alert)) → alerts_in lower feed ≡ o → All IsMatched (or_none lower o)
      go none e = tt
      go (some alerts) e = alerts_in-IsMatched feed alerts e
