-- ===== src/Knowledge/Alerts.antt =====
-- self_update/crawl4ai_pipeline.py: the alerts in the feed of the NVD on the packages of the stack.
use secure_orchestration_mes.Prelude.{
  String, if◌then◌else◌, Option, none, some, List, [], ◌∷◌, occurs_in, ◌>>=◌, traverse, ◌++◌,
}
use secure_orchestration_mes.Json.{
  Json, text, array, object, item, nil, empty, get_member, or_else, elements, list_of, truthy,
  floating, finite,
}
use secure_orchestration_mes.Prelude.Int.{pos}

abbrev pub stack_packages : List String
stack_packages =
    "grpcio" ∷ "grpc" ∷ "protobuf" ∷ "cryptography" ∷ "python-jose" ∷ "torch" ∷ "transformers"
    ∷ "scikit-learn" ∷ "ollama" ∷ "websockets" ∷ "opentelemetry" ∷ "httpx" ∷ []

-- What the feed says of an item, where it may be any JSON value.
pub record Alert : Type 0 where
  pub cve_id : Json
  pub description : String
  pub severity : Json
  pub published_date : Json
  pub affected_package : String
  pub cvss_score : Json

-- `v.get(k, default)`, or an AttributeError; and `v[0]`, or an exception.
unfoldable pub get_of : Json → String → Json → Option Json
get_of (object d) k default = some (or_else default (get_member d k))
get_of v k default = none

unfoldable pub first_of : Json → Option Json
first_of (array (item v vs)) = some v
first_of _ = none

-- `v.lower()` needs a text.
unfoldable pub text_of : Json → Option String
text_of (text s) = some s
text_of _ = none

abbrev pub or_falsy : Json → Json → Json
or_falsy v w = if truthy v then v else w

module _ (lower : String → String) where
  -- The loop over the packages.
  unfoldable pub matched : String → List String → Option String
  matched desc [] = none
  matched desc (pkg ∷ pkgs) =
      let rest = matched desc pkgs in if occurs_in (lower pkg) desc then some pkg else rest

  unfoldable pub scored_alert : Json → Json → String → String → Option Alert
  scored_alert item' cve_id description pkg = do
    impact ← get_of item' "impact" (object empty)
    v2 ← get_of impact "baseMetricV2" (object empty)
    v3 ← get_of impact "baseMetricV3" (object empty)
    cvss_v2 ← get_of (or_falsy v2 v3) "cvssV2" (object empty)
    cvss_v3 ← get_of (or_falsy v2 v3) "cvssV3" (object empty)
    score ← get_of (or_falsy cvss_v2 cvss_v3) "baseScore" (floating (finite (pos 0)))
    severity ← get_of (or_falsy cvss_v2 cvss_v3) "severity" (text "UNKNOWN")
    published ← get_of item' "publishedDate" (text "")
    some (record {
      cve_id = cve_id;
      description = description;
      severity = or_falsy severity (text "UNKNOWN");
      published_date = published;
      affected_package = pkg;
      cvss_score = score;
    })

  abbrev pub alert_for : Json → Json → String → Option String → Option (List Alert)
  alert_for item' cve_id description none = some []
  alert_for item' cve_id description (some pkg) =
      scored_alert item' cve_id description pkg >>= λ a. some (a ∷ [])

  -- One item: its alert, if a package is named in it, or an exception.
  unfoldable pub alert_of : Json → Option (List Alert)
  alert_of item' = do
    cve ← get_of item' "cve" (object empty)
    meta ← get_of cve "CVE_data_meta" (object empty)
    cve_id ← get_of meta "ID" (text "")
    description ← get_of cve "description" (object empty)
    entries ← get_of description "description_data" (array (item (object empty) nil))
    entry ← first_of entries
    value ← get_of entry "value" (text "")
    desc ← text_of value
    alert_for item' cve_id desc (matched (lower desc) stack_packages)

  abbrev pub concat : List (List Alert) → List Alert
  concat [] = []
  concat (alerts ∷ batches) = alerts ++ concat batches

  unfoldable pub alerts_in : Json → Option (List Alert)
  alerts_in feed = do
    items' ← get_of feed "CVE_Items" (array nil)
    vs ← list_of items'
    batches ← traverse alert_of (elements vs)
    some (concat batches)

  abbrev pub or_none : Option (List Alert) → List Alert
  or_none none = []
  or_none (some alerts) = alerts

  -- `fetch`, with the JSON of the feed, if it could be had: an exception gives no alert at all.
  unfoldable pub fetch : Option Json → List Alert
  fetch feed = or_none (feed >>= alerts_in)
