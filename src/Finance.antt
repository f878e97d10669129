-- ===== src/Finance.antt =====
-- mcp-servers/finance-rules/internal: the reimbursement rules (domain/models.go, domain/rules.go)
-- and their use (service/evaluate.go). Amounts are values of `Float64`; a detail is a value of
-- `Detail`, which says what the text of the source is made from.
pub mod Verdicts
use sl_open_bark.Common.{
  String, Bool, true, false, not, ◌&&◌, ◌||◌, List, [], ◌∷◌, Option, none, some, if◌then◌else◌,
  ◌==◌, contains, string_eq,
}
use sl_open_bark.Common.Dict.{Dict, lookup}
use sl_open_bark.Common.Float.{Float64}
use sl_open_bark.Common.Int.{ℤ, pos, le_int}
use sl_open_bark.Common.Result.{Result, ok, err}

pub data Verdict : Type 0 where
  pass fail review : Verdict

pub data StandardsError : Type 0 where
  unparsable no_categories days_not_positive band_out_of_range : StandardsError

abbrev is_empty : List String → Bool
is_empty [] = true
is_empty (c ∷ cs) = false

module _ (F : Float64) where
  open F use {Float, le, lt, mul, sub}

  pub record ReimbursementRequest : Type 0 where
    pub request_id : String
    pub submitter_email : String
    pub amount_usd : Float
    pub category : String
    pub has_itemized_receipt : Bool
    pub event_associated : Bool
    pub submitted_days_after_purchase : ℤ

  pub record Standards : Type 0 where
    pub eligible_categories : List String
    pub category_caps_usd : Dict Float
    pub max_days_to_submit : ℤ
    pub require_receipt : Bool
    pub require_event_assoc : Bool
    pub review_band : Float

  pub data Detail : Type 0 where
    fine no_cap missing_receipt not_associated : Detail
    not_eligible : String → Detail
    late : ℤ → ℤ → Detail
    over_cap : Float → Float → String → Detail

  pub record RuleResult : Type 0 where
    pub standard : String
    pub passed : Bool
    pub detail : Detail

  pub record Evaluation : Type 0 where
    pub request_id : String
    pub verdict : Verdict
    pub failed_standards : List RuleResult
    pub notes : List String

  -- `parsed` is what encoding/json makes of the file.
  pub load_standards : Option Standards → Result StandardsError Standards
  load_standards none = err unparsable
  load_standards (some s) =
      if is_empty s.eligible_categories
      then err no_categories
      else if le_int s.max_days_to_submit (pos 0)
      then err days_not_positive
      else if lt s.review_band F.zero || le F.one s.review_band
      then err band_out_of_range
      else ok s

  abbrev result : String → Bool → Detail → RuleResult
  result standard passed detail = record { standard = standard; passed = passed; detail = detail }

  pub check_category_eligible : ReimbursementRequest → Standards → RuleResult
  check_category_eligible r s =
      if contains s.eligible_categories r.category
      then result "eligible_category" true fine
      else result "eligible_category" false (not_eligible r.category)

  pub check_receipt : ReimbursementRequest → Standards → RuleResult
  check_receipt r s =
      let passed = not s.require_receipt || r.has_itemized_receipt in
      result "itemized_receipt" passed (if passed then fine else missing_receipt)

  pub check_event_association : ReimbursementRequest → Standards → RuleResult
  check_event_association r s =
      let passed = not s.require_event_assoc || r.event_associated in
      result "event_association" passed (if passed then fine else not_associated)

  pub check_deadline : ReimbursementRequest → Standards → RuleResult
  check_deadline r s =
      let passed = le_int r.submitted_days_after_purchase s.max_days_to_submit in
      result "submission_deadline" passed
        (if passed then fine else late r.submitted_days_after_purchase s.max_days_to_submit)

  abbrev cap_result : ReimbursementRequest → Option Float → RuleResult
  cap_result r none = result "category_cap" true no_cap
  cap_result r (some limit) =
      if le r.amount_usd limit
      then result "category_cap" true fine
      else result "category_cap" false (over_cap r.amount_usd limit r.category)

  pub check_category_cap : ReimbursementRequest → Standards → RuleResult
  check_category_cap r s = cap_result r (lookup r.category s.category_caps_usd)

  abbrev pub checks : List (ReimbursementRequest → Standards → RuleResult)
  checks =
      check_category_eligible ∷ check_receipt ∷ check_event_association ∷ check_deadline
      ∷ check_category_cap ∷ []

  abbrev in_band : ReimbursementRequest → Standards → Option Float → Bool
  in_band r s none = false
  in_band r s (some limit) =
      le (mul limit (sub F.one s.review_band)) r.amount_usd && le r.amount_usd limit

  pub is_borderline : ReimbursementRequest → Standards → Bool
  is_borderline r s = in_band r s (lookup r.category s.category_caps_usd)

  -- The loop over the checks: the results that did not pass.
  pub failures :
      List (ReimbursementRequest → Standards → RuleResult)
      → ReimbursementRequest
      → Standards
      → List RuleResult
  failures [] r s = []
  failures (check ∷ rest) r s =
      let later = failures rest r s in if (check r s).passed then later else check r s ∷ later

  abbrev evaluation : String → Verdict → List RuleResult → List String → Evaluation
  evaluation id verdict failed notes = record {
    request_id = id;
    verdict = verdict;
    failed_standards = failed;
    notes = notes;
  }

  abbrev band_note : String
  band_note = "amount is within the review band of the category cap; needs a human decision"

  abbrev pub verdict_of : ReimbursementRequest → Bool → List RuleResult → Evaluation
  verdict_of r borderline (f ∷ fs) = evaluation r.request_id fail (f ∷ fs) []
  verdict_of r true [] = evaluation r.request_id review [] (band_note ∷ [])
  verdict_of r false [] = evaluation r.request_id pass [] []

  pub evaluate_reimbursement : ReimbursementRequest → Standards → Evaluation
  unfolding failures
  evaluate_reimbursement r s = verdict_of r (is_borderline r s) (failures checks r s)

  -- service.Evaluator holds the standards; its method is this.
  pub record Evaluator : Type 0 where
    pub standards : Standards

  abbrev pub evaluate : Evaluator → ReimbursementRequest → Evaluation
  evaluate e r = evaluate_reimbursement r e.standards
