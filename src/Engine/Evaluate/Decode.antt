-- ===== src/Engine/Evaluate/Decode.antt =====
-- What a policy's answer can do to a finding: `decodeResult` and `evaluateOne` of
-- internal/engine/engine.go.
use jenkins_bench.Prelude.{◌≡◌, ◌≢◌, refl, inl, inr, false, none, some, List, [], ◌∷◌, arith}
use jenkins_bench.Prelude.Text.{Text, codes, trim_space, is_empty, to_upper}
use jenkins_bench.Prelude.Result.{ok, Result-cases}
use jenkins_bench.Checks.{Check}
use jenkins_bench.Engine.{Status, pass, fail, manual, na}
use jenkins_bench.Engine.Evaluate.{
  Json, object, array, string, Items, nil, cons, end, field, DecodeError, PolicyResult, read_status,
  Outcome, eval_error, no_result, value, show_items, decode_result, evaluate_one,
}

abbrev pub status_text : Status → Text
status_text pass = codes "PASS"
status_text fail = codes "FAIL"
status_text manual = codes "MANUAL"
status_text na = codes "NA"

abbrev pub items_of : List Text → Items
items_of [] = nil
items_of (s ∷ ss) = cons (string s) (items_of ss)

-- A policy result as the JSON object that a rule writes.
abbrev pub print_result : PolicyResult → Json
print_result r = object (
    field (codes "status") (string (status_text r.status)) (
      field (codes "details") (string r.details)
        (field (codes "evidence") (array (items_of r.evidence)) end)))

show_items-items_of :
    (show : Json → Text)
    → ((s : Text) → show (string s) ≡ s)
    → (ss : List Text) → show_items show (items_of ss) ≡ ss
unfolding show_items
show_items-items_of show plain [] = refl
show_items-items_of show plain (s ∷ ss) = cc (plain s, show_items-items_of show plain ss)

read_status-status_text : (s : Status) → read_status (status_text s) ≡ some s
unfolding read_status trim_space to_upper
read_status-status_text pass = refl
read_status-status_text fail = refl
read_status-status_text manual = refl
read_status-status_text na = refl

-- Conditions: a JSON string is shown as itself, and the details are not blank. `decodeResult` then
-- reads back the result that was written, whatever its status and evidence.
pub decode_result-print :
    (show : Json → Text)
    → ((s : Text) → show (string s) ≡ s)
    → (r : PolicyResult) → is_empty (trim_space r.details) ≡ false
    → decode_result show (print_result r) ≡ ok r
unfolding decode_result
decode_result-print show plain r h =
    ground (arith, h, read_status-status_text r.status, show_items-items_of show plain r.evidence)

module _ (show : Json → Text) (describe : DecodeError → Text) (c : Check)
    (resource kind : Text) where
  -- Condition: the evaluation of a control left a policy error. Its finding is then MANUAL.
  pub evaluate_one_error :
      (o : Outcome)
      → ((evaluate_one show describe c resource kind o).1 ≢ none)
      → (evaluate_one show describe c resource kind o).0.status ≡ manual
  unfolding evaluate_one
  evaluate_one_error (eval_error e) h = refl
  evaluate_one_error no_result h = refl
  evaluate_one_error (value v) h = ground (arith, h)

  -- Condition: the finding is not MANUAL. The outcome is then a value that decodes, the status is
  -- the one decoded from it, and there is no policy error.
  pub evaluate_one_verdict :
      (o : Outcome)
      → (evaluate_one show describe c resource kind o).0.status ≢ manual
      → (v : Json) × (r : PolicyResult) × (o ≡ value v)
        × (decode_result show v ≡ ok r)
        × ((evaluate_one show describe c resource kind o).0.status ≡ r.status)
        × ((evaluate_one show describe c resource kind o).1 ≡ none)
  unfolding evaluate_one
  evaluate_one_verdict (eval_error e) h = absurd (h refl)
  evaluate_one_verdict no_result h = absurd (h refl)
  evaluate_one_verdict (value v) h = elim (Result-cases (decode_result show v)) [
    | inl (r, e) ↦ (v, r, refl, e, ground arith, ground arith)
    | inr (e, q) ↦ absurd (h (ground arith))
  ]
