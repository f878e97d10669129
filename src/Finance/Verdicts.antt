-- ===== src/Finance/Verdicts.antt =====
-- rules.go: each verdict against the policy, stated without the checks.
use sl_open_bark.Common.{
  ◌≢◌, Option, Bool, true, false, List, [], ◌∷◌, none, some, contains, string_eq, ◌≡◌, ◌↔◌, ◌⊎◌,
  arith,
}
use sl_open_bark.Common.Dict.{lookup}
use sl_open_bark.Common.Float.{Float64}
use sl_open_bark.Common.Int.{le_int, pos}
use sl_open_bark.Common.Result.{ok}
use sl_open_bark.Finance.{
  load_standards, pass, fail, review, ReimbursementRequest, Standards, evaluate_reimbursement,
  failures, checks, verdict_of, RuleResult, is_borderline, check_category_eligible, check_receipt,
  check_event_association, check_deadline, check_category_cap,
}

module _ (F : Float64) (r : ReimbursementRequest F) (s : Standards F) where
  abbrev pub UnderCap : Type 0
  UnderCap =
      (lookup r.category s.category_caps_usd ≡ none)
      ⊎ ((cap : F.Float) × (lookup r.category s.category_caps_usd ≡ some cap)
          × (F.le r.amount_usd cap ≡ true))

  -- The policy, a line for each standard.
  abbrev pub Complies : Type 0
  Complies =
      (contains s.eligible_categories r.category ≡ true)
      × ((s.require_receipt ≡ false) ⊎ (r.has_itemized_receipt ≡ true))
      × ((s.require_event_assoc ≡ false) ⊎ (r.event_associated ≡ true))
      × (le_int r.submitted_days_after_purchase s.max_days_to_submit ≡ true)
      × UnderCap

  -- The amount is at most the cap of its category and within the band below it.
  abbrev pub InBand : Type 0
  InBand =
      (cap : F.Float) × (lookup r.category s.category_caps_usd ≡ some cap)
      × (F.le (F.mul cap (F.sub F.one s.review_band)) r.amount_usd ≡ true)
      × (F.le r.amount_usd cap ≡ true)

  eligible_passed :
      ((check_category_eligible F r s).passed ≡ true)
      ↔ (contains s.eligible_categories r.category ≡ true)
  unfolding check_category_eligible
  eligible_passed = ground arith

  receipt_passed :
      ((check_receipt F r s).passed ≡ true)
      ↔ ((s.require_receipt ≡ false) ⊎ (r.has_itemized_receipt ≡ true))
  unfolding check_receipt
  receipt_passed = ground arith

  event_passed :
      ((check_event_association F r s).passed ≡ true)
      ↔ ((s.require_event_assoc ≡ false) ⊎ (r.event_associated ≡ true))
  unfolding check_event_association
  event_passed = ground arith

  deadline_passed :
      ((check_deadline F r s).passed ≡ true)
      ↔ (le_int r.submitted_days_after_purchase s.max_days_to_submit ≡ true)
  unfolding check_deadline
  deadline_passed = ground arith

  cap_passed : ((check_category_cap F r s).passed ≡ true) ↔ UnderCap
  unfolding check_category_cap
  cap_passed = ground arith

  is_borderline_iff : (is_borderline F r s ≡ true) ↔ InBand
  unfolding is_borderline
  is_borderline_iff = ground arith

  no_failures : (failures F (checks F) r s ≡ []) ↔ Complies
  unfolding failures
  no_failures =
      ground (arith, eligible_passed, receipt_passed, event_passed, deadline_passed, cap_passed)

  verdict_of_iff :
      (P Q : Type 0) (b : Bool) (found : List (RuleResult F))
      → (found ≡ []) ↔ P
      → (b ≡ true) ↔ Q
      → let v = (verdict_of F r b found).verdict in
        ((v ≡ pass) ↔ (P × ¬ Q)) × ((v ≡ review) ↔ (P × Q)) × ((v ≡ fail) ↔ ¬ P)
  verdict_of_iff P Q true [] p q = ground arith
  verdict_of_iff P Q false [] p q = ground arith
  verdict_of_iff P Q b (f ∷ fs) p q = ground arith

  -- The verdict is `pass` exactly if the request complies with every standard and its amount is
  -- not in the review band, `review` exactly if it complies and is in the band, and `fail`
  -- exactly if it does not comply.
  pub evaluate_reimbursement_lem :
      let v = (evaluate_reimbursement F r s).verdict in
      ((v ≡ pass) ↔ (Complies × ¬ InBand))
      × ((v ≡ review) ↔ (Complies × InBand))
      × ((v ≡ fail) ↔ ¬ Complies)
  unfolding evaluate_reimbursement
  evaluate_reimbursement_lem =
      verdict_of_iff Complies InBand (is_borderline F r s) (failures F (checks F) r s) no_failures
        is_borderline_iff

-- Standards that are fit for use.
abbrev pub Valid : (F : Float64) → Standards F → Type 0
Valid F s =
    (s.eligible_categories ≢ [])
    × (le_int s.max_days_to_submit (pos 0) ≡ false)
    × (F.lt s.review_band F.zero ≡ false)
    × (F.le F.one s.review_band ≡ false)

-- Standards load exactly if they parse and are valid, and then as they are.
pub load_standards-Valid :
    (F : Float64) (parsed : Option (Standards F)) (s : Standards F)
    → (load_standards F parsed ≡ ok s) ↔ ((parsed ≡ some s) × Valid F s)
unfolding load_standards
load_standards-Valid F none s = ground arith
load_standards-Valid F (some t) s = ground arith
