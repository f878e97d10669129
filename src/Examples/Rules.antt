-- ===== src/Examples/Rules.antt =====
-- The reimbursement rules, the assembly, the scheduler and the tasks at concrete
-- inputs.
use sl_open_bark.Common.{
  ℕ, suc, ◌-◌, ◌*◌, String, true, false, List, [], ◌∷◌, none, some, ◌≡◌, refl, ◌↔◌, if◌then◌else◌,
  ◌==◌, string_eq, ltb, leb, arith, inl, inr,
}
use sl_open_bark.Common.Lists.{All, length}
use sl_open_bark.Common.Int.{pos}
use sl_open_bark.Common.Float.{Float64}
use sl_open_bark.Common.Result.{ok, err}
use sl_open_bark.Finance.{
  pass, fail, review, ReimbursementRequest, Standards, evaluate_reimbursement,
}
use sl_open_bark.Finance.Verdicts.{Complies, InBand, evaluate_reimbursement_lem}
use sl_open_bark.Assembly.{Part, Packed, assemble, assembled}
use sl_open_bark.Assembly.Budget.{Budgeted, assemble-Budgeted}
use sl_open_bark.Scheduler.{Job, Cron, Runtime, run_due}
use sl_open_bark.Scheduler.Client.{Http}
use sl_open_bark.Scheduler.Main.{Files, load, jobs, client_of, main}
use sl_open_bark.Scheduler.Main.Submitted.{about, due_names, due_requests, main-Asked}
use sl_open_bark.Scheduler.Due.{Parses, Fails, run_due-invalid}
use mathlib.Core.List.{flat_map}
use sl_open_bark.Runtime.{
  System, Steps, start, stay, further, asks, drains, Decision, observe, approval_event,
}
use sl_open_bark.Runtime.Coherent.{Shown, Steps-Shown}
use sl_open_bark.Runtime.Mismatch.{Hidden, mismatch-Hidden}

abbrev naturals : Float64
naturals = record {
  Float = ℕ;
  zero = 0;
  one = 1;
  le = leb;
  lt = ltb;
  mul = λ a b. a * b;
  sub = λ a b. a - b;
}

abbrev policy : Standards naturals
policy = record {
  eligible_categories = "food" ∷ "travel" ∷ [];
  category_caps_usd = ("food", 500) ∷ [];
  max_days_to_submit = pos 30;
  require_receipt = true;
  require_event_assoc = false;
  review_band = 0;
}

abbrev claim : ReimbursementRequest naturals
claim = record {
  request_id = "r-1";
  submitter_email = "ana@example.org";
  amount_usd = 500;
  category = "food";
  has_itemized_receipt = true;
  event_associated = false;
  submitted_days_after_purchase = pos 12;
}

evaluate_reimbursement_lem_example :
    let v = (evaluate_reimbursement naturals claim policy).verdict in
    ((v ≡ pass) ↔ (Complies naturals claim policy × ¬ InBand naturals claim policy))
    × ((v ≡ review) ↔ (Complies naturals claim policy × InBand naturals claim policy))
    × ((v ≡ fail) ↔ ¬ Complies naturals claim policy)
evaluate_reimbursement_lem_example = evaluate_reimbursement_lem naturals claim policy

abbrev parts : List Part
parts =
    record { name = "system"; content = 72 ∷ 105 ∷ []; trimmable = false }
    ∷ record { name = "memory"; content = []; trimmable = false }
    ∷ record {
      name = "tool_output";
      content = 1 ∷ 2 ∷ 3 ∷ 4 ∷ 5 ∷ 6 ∷ 7 ∷ 8 ∷ 9 ∷ [];
      trimmable = true;
    }
    ∷ []

assemble-Budgeted_example :
    (r : Packed) × (assemble parts (pos 3) (some length) ≡ assembled r)
    × Budgeted length 3 0 parts r
assemble-Budgeted_example = assemble-Budgeted length 2 parts

-- A schedule is a time at which it fires; the only spec that parses is "now".
abbrev cron : Cron
cron = record {
  Schedule = ℕ;
  parse = λ spec. if spec == "now" then ok 60000000000 else err "unknown spec";
  next = λ schedule t. schedule;
}

abbrev client : Runtime
client = record { State = ℕ; submit = λ recipe committee params n. (("task", none), suc n) }

abbrev job : String → Job
job spec = record {
  name = "digest";
  spec = spec;
  recipe = "shared/digest";
  committee = "tech";
  params = [];
}

job-Parses : All (Parses cron) (job "now" ∷ [])
unfolding string_eq
job-Parses = ((60000000000, refl), tt)

abbrev http : Http
http = record {
  State = ℕ;
  send = λ q n. (ok (record { status = 202; body = "task" }), suc n);
  decode = λ body. ok body;
  print = λ n. "";
}

-- A schedule file with one job.
abbrev schedule : Files
schedule = record { read = λ path. ok path; parse_jobs = λ raw. ok (job "now" ∷ []) }

-- Every variable is set.
abbrev environment : String → String
environment name = name

schedule-jobs : jobs schedule (load environment) ≡ ok (job "now" ∷ [])
unfolding load jobs string_eq
schedule-jobs = refl

abbrev minutes : List ℕ
minutes = 60000000005 ∷ 120000000005 ∷ []

main-Asked_example :
    let c = client_of (load environment) in
    ((main cron http schedule environment [] 0 minutes ([], 0)).1.0
      ≡ flat_map (due_requests cron c (job "now" ∷ [])) minutes)
    × (flat_map about (main cron http schedule environment [] 0 minutes ([], 0)).0.0
        ≡ flat_map (due_names cron (job "now" ∷ [])) minutes)
main-Asked_example =
    main-Asked cron http schedule environment [] 0 minutes (job "now" ∷ []) ([], 0) schedule-jobs
      job-Parses

job_is_invalid : cron.parse "later" ≡ err "unknown spec"
unfolding string_eq
job_is_invalid = refl

run_due-invalid_example :
    Fails cron (run_due cron client (job "now" ∷ job "later" ∷ []) 60000000005 0).0
    × ((run_due cron client (job "now" ∷ job "later" ∷ []) 60000000005 0).1 ≡ 0)
run_due-invalid_example =
    run_due-invalid cron client (job "now" ∷ job "later" ∷ []) 60000000005 0 (job "later")
      "unknown spec" (inr (inl refl)) job_is_invalid

abbrev asked : System
asked = record start { queue = approval_event "pay" "a1" ∷ []; waiting = some "a1" }

abbrev shown : System
shown = record asked { queue = []; state = observe (approval_event "pay" "a1") start.state }

to_shown : Steps start shown
to_shown =
    further asked shown (further start asked stay (asks "pay" "a1" refl refl (omega arith)))
      (drains (approval_event "pay" "a1") [] refl refl)

Steps-Shown_example : Shown shown.state shown.drained
Steps-Shown_example = Steps-Shown shown to_shown

abbrev other : Decision
other = record { approval_id = "a2"; granted = true; decided_by = "ana" }

mismatch-Hidden_example : (t : System) × Steps shown t × Hidden t "a1"
unfolding observe string_eq
mismatch-Hidden_example = mismatch-Hidden shown other "a1" refl refl refl refl
