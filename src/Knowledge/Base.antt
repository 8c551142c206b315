-- ===== src/Knowledge/Base.antt =====
-- self_update/crawl4ai_pipeline.py: the knowledge base, a file of Markdown, and the keys that are known.
-- A table of SQLite with a primary key is the list of its keys, the newest first.
use Prim.Native.String.{◌++◌ as ◌+++◌}
use secure_orchestration_mes.Prelude.{
  ℕ, zero, suc, ltb, String, if◌then◌else◌, Option, none, some, List, [], ◌∷◌, contains, length,
  map,
}
use secure_orchestration_mes.Prelude.Int.{ℤ, pos}
use secure_orchestration_mes.Text.{joined}
use secure_orchestration_mes.Config.{after_prefix}
use secure_orchestration_mes.Knowledge.{PaperEntry}

pub record CveAlert : Type 0 where
  pub cve_id : String
  pub description : String
  pub severity : String
  pub published_date : String
  pub affected_package : String
  pub cvss_score : ℕ

-- The two tables, and the file if there is one.
pub record KnowledgeBase : Type 0 where
  pub known_papers : List String
  pub cve_alerts : List String
  pub content : Option String

-- The digits of a number, the format `.1f` of a score, and the present day.
pub record Formats : Type 0 where
  pub digits : ℤ → String
  pub fixed : ℕ → String
  pub today : String

-- `len(s)` and `s[:n]`
unfoldable pub size : String → ℕ
size String.[] = 0
size (String.◌∷◌ c s) = suc (size s)

unfoldable pub first_chars : ℕ → String → String
first_chars zero s = String.[]
first_chars (suc n) String.[] = String.[]
first_chars (suc n) (String.◌∷◌ c s) = String.◌∷◌ c (first_chars n s)

-- `INSERT OR IGNORE`
unfoldable pub mark : List String → String → List String
mark known key = if contains key known then known else key ∷ known

-- The loop over the papers or the alerts: what was not known yet, and the table after it.
module _ {ℓ} {A : Type ℓ} (key_of : A → String) where
  unfoldable pub unknown : List String → List A → List A × List String
  unknown known [] = ([], known)
  unknown known (a ∷ as') =
      let (new, known') = unknown (mark known (key_of a)) as' in
      (if contains (key_of a) known then new else a ∷ new, known')

-- `text` behind the first place of `marker` in the content, if there is one.
unfoldable pub insert_after : String → String → String → Option String
insert_after marker text String.[] = none
insert_after marker text (String.◌∷◌ c s) = elim (after_prefix marker (String.◌∷◌ c s)) [
  | some rest ↦ some (marker +++ text +++ rest)
  | none ↦ elim (insert_after marker text s) [ none ↦ none | some s' ↦ some (String.◌∷◌ c s') ]
]

abbrev or_same : String → Option String → String
or_same content none = content
or_same content (some content') = content'

abbrev pub table_sep : String
table_sep = "|-------|---------|------|-------|------------|-----------|"

module _ (formats : Formats) where
  -- The two `to_markdown_row`.
  unfoldable pub paper_row : PaperEntry → String
  paper_row p =
      let authors_short =
        if ltb 60 (size p.authors) then first_chars 60 p.authors +++ "..." else p.authors in
      "| "
      +++ p.title
      +++ " | "
      +++ authors_short
      +++ " | "
      +++ formats.digits p.year
      +++ " | "
      +++ p.venue
      +++ " | "
      +++ p.doi_or_arxiv
      +++ " | "
      +++ p.relevance_note
      +++ " |"

  unfoldable pub cve_row : CveAlert → String
  cve_row c =
      "| "
      +++ c.cve_id
      +++ " | "
      +++ c.affected_package
      +++ " | "
      +++ c.severity
      +++ " | "
      +++ formats.fixed c.cvss_score
      +++ " | "
      +++ c.published_date
      +++ " | "
      +++ first_chars 80 c.description
      +++ "... |"

  abbrev title_of : List PaperEntry → String
  title_of [] = "None"
  title_of (paper ∷ papers) = paper.title

  unfoldable pub log_entry : List PaperEntry → ℕ → ℕ → String
  log_entry papers added alerts =
      "\n### "
      +++ formats.today
      +++ " — Automated Crawl\n- **Source**: ArXiv\n- **New papers added**: "
      +++ formats.digits (pos added)
      +++ "\n- **CVE alerts generated**: "
      +++ formats.digits (pos alerts)
      +++ "\n- **Notable finding**: "
      +++ title_of papers
      +++ "\n"

  -- `if new_rows:` on the content.
  unfoldable pub with_papers : List PaperEntry → ℕ → List PaperEntry → String → String
  with_papers papers alerts [] content = content
  with_papers papers alerts (new ∷ news) content =
      let rows = "\n" +++ joined (map paper_row (new ∷ news)) in
      let content' = or_same content (insert_after table_sep rows content) in
      or_same content' (
        insert_after "## Knowledge Update Log" (log_entry papers (length (new ∷ news)) alerts)
          content')

  -- `if new_cve_rows:`
  unfoldable pub with_cves : List CveAlert → String → String
  with_cves [] content = content
  with_cves (new ∷ news) content =
      content
      +++ "\n\n### CVE Alerts — "
      +++ formats.today
      +++ "\n\n| CVE ID | Package | Severity | CVSS | Date | Description |\n|--------|---------|----------|------|------|-------------|\n"
      +++ joined (map cve_row (new ∷ news))

  unfoldable pub update_content :
      KnowledgeBase → List PaperEntry → List CveAlert → String → ℕ × KnowledgeBase
  update_content self papers cves content =
      let (new_papers, known) = unknown (λ p. p.doi_or_arxiv) self.known_papers papers in
      let (new_cves, notified) = unknown (λ c. c.cve_id) self.cve_alerts cves in
      (
        length new_papers,
        record {
          known_papers = known;
          cve_alerts = notified;
          content = some (with_cves new_cves (with_papers papers (length cves) new_papers content));
        },
      )

  abbrev pub update_file :
      KnowledgeBase → List PaperEntry → List CveAlert → Option String → ℕ × KnowledgeBase
  update_file self papers cves none = (0, self)
  update_file self papers cves (some content) = update_content self papers cves content

  unfoldable pub update_knowledge_base :
      KnowledgeBase → List PaperEntry → List CveAlert → ℕ × KnowledgeBase
  update_knowledge_base self papers cves = update_file self papers cves self.content
