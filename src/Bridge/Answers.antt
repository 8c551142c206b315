-- ===== src/Bridge/Answers.antt =====
-- How the bridge of translator/slm_bridge.py reads an answer.
use secure_orchestration_mes.Prelude.{◌≡◌, ◌≢◌, refl, ap, All}
use secure_orchestration_mes.Text.{
  Text, newline, starts_with, strip, is_space, strip_left, strip_right,
}
use secure_orchestration_mes.Text.Fence.{fenced, unfence-fenced}
use secure_orchestration_mes.Bridge.{Environment, extract_json, closes}

-- An answer between markdown fences is read as the text between them, whatever stands behind the
-- opening fence on its line.
pub extract_json-fenced :
    (env : Environment) (info body : Text)
    → All (λ c. c ≢ newline) info
    → extract_json env (fenced info body) ≡ env.json_loads body
unfolding extract_json closes starts_with strip strip_left strip_right is_space
extract_json-fenced env info body h = ap env.json_loads (unfence-fenced closes info body refl h)
