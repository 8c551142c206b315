-- ===== src/Knowledge/Tests.antt =====
-- Two papers, one of them twice, and a knowledge base with and without a table.
use secure_orchestration_mes.Prelude.{◌≡◌, refl, String, some, List, [], ◌∷◌, length, ◌*◌, ◌^◌}
use secure_orchestration_mes.Prelude.Int.{pos}
use secure_orchestration_mes.Json.{
  Json, text, object, member, empty, array, item, nil, get_member, list_of, truthy,
}
use secure_orchestration_mes.Prelude.{traverse}
use secure_orchestration_mes.Knowledge.{
  PaperEntry, filter, relevant, sorted, insert, scored, combined, compute_relevance, score_of,
  count_in,
}
use secure_orchestration_mes.Knowledge.Base.{
  KnowledgeBase, Formats, mark, unknown, update_knowledge_base, update_content,
}
use secure_orchestration_mes.Knowledge.Alerts.{
  fetch, alerts_in, alert_of, scored_alert, matched, get_of, first_of, text_of,
}

abbrev paper : String → String → PaperEntry
paper title id = record {
  title = title;
  authors = "";
  year = pos 2026;
  venue = "arXiv";
  doi_or_arxiv = id;
  abstract' = "grpc agent protobuf";
  relevance_score = 0;
  relevance_note = "";
}

abbrev papers : List PaperEntry
papers = paper "trust" "arXiv:1" ∷ paper "chatbot" "arXiv:2" ∷ paper "trust" "arXiv:1" ∷ []

abbrev formats : Formats
formats = record { digits = λ n. "n"; fixed = λ n. "0.0"; today = "d" }

abbrev base : KnowledgeBase
base = record {
  known_papers = [];
  cve_alerts = [];
  content = some "|-------|---------|------|-------|------------|-----------|!";
}

takes_two : (update_knowledge_base formats base papers []).0 ≡ 2
unfolding update_knowledge_base update_content unknown mark
takes_two = refl

abbrev same : String → String
same s = s

-- The three words that occur make 0.74, and the chatbot is left out.
passes_two : length (filter same (6305039478318694 * 2 ^ 1021) papers) ≡ 2
unfolding filter relevant sorted insert scored combined compute_relevance score_of count_in
passes_two = refl

abbrev feed : Json
feed = object (
    member "CVE_Items"
      (array (
        item
          (object (
            member "cve"
              (object (
                member "description"
                  (object (
                    member "description_data"
                      (array (item (object (member "value" (text "a hole in grpc") empty)) nil))
                      empty))
                  empty))
              empty))
          nil))
      empty)

one_alert : length (fetch same (some feed)) ≡ 1
unfolding fetch alerts_in alert_of scored_alert matched get_of first_of text_of traverse list_of
    get_member truthy
one_alert = refl
