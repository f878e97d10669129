-- ===== src/Store/History/Warranted.antt =====
-- The store over time: where an approval, and the decision on it, come from.
use sl_open_bark.Common.{
  ℕ, String, true, ◌&&◌, List, [], ◌∷◌, ◌++◌, Option, none, some, string_eq, nat_eq, contains, ◌≡◌,
  refl, ◌⊎◌, inl, inr, arith, if_elim, eq_of_==,
}
use sl_open_bark.Common.Lists.{update, find?}
use sl_open_bark.Common.Members.{Elem, append-Elem, update-Elem}
use sl_open_bark.Common.Result.{Result, ok, err, continue_with}
use sl_open_bark.Store.Models.{Approval, RawMessage}
use sl_open_bark.Store.Db.{StoreError, Db, Env, Tables}
use sl_open_bark.Store.Db.Laws.{run_statement-tables, subst-some}
use sl_open_bark.Store.Governance.{
  default_json, is_json, session_allowed, new_approval, create_approval, decide, decide_row,
  decide_approval, has_approval_id, or_not_found, status_pending, statuses,
}
use sl_open_bark.Store.History.{Operation, request, decision, run, history}
use sl_open_bark.Store.History.Untouched.{Kept, as_it_is, new_uuid, Untouched, run-Kept}

abbrev pub SameRequest : Approval → Approval → Type 0
SameRequest b a =
    (b.id ≡ a.id)
    × (b.session_id ≡ a.session_id)
    × (b.tool ≡ a.tool)
    × (b.args_redacted ≡ a.args_redacted)
    × (b.created_at ≡ a.created_at)

-- The approval was recorded as pending by a request of the history.
abbrev pub Requested : List Operation → Approval → Type 0
Requested ops b =
    (args : RawMessage) × Elem (request b.session_id b.tool args) ops
    × (b.args_redacted ≡ default_json args)
    × (b.status ≡ status_pending)

-- `b` is the approval as it began, and `a` as it is.
abbrev pub Decided : List Operation → Approval → Approval → Type 0
Decided ops b a =
    ((a.status ≡ b.status) × (a.decided_by ≡ b.decided_by))
    ⊎ Elem (decision a.id a.status a.decided_by) ops

abbrev pub Known : List Operation → Tables → Approval → Type 0
Known ops before a =
    (b : Approval) × (Elem b before.approvals ⊎ Requested ops b) × SameRequest b a × Decided ops b a

-- Every approval of the tables after is known from those before and the operations.
abbrev pub AllKnown : List Operation → Tables → Tables → Type 0
AllKnown ops t u = (a : Approval) → Elem a u.approvals → Known ops t a

as_before : (ops : List Operation) (t : Tables) → AllKnown ops t t
as_before ops t a m = (a, inl m, (refl, refl, refl, refl, refl), inl (refl, refl))

new_approval-Known :
    (session_id tool : String) (args : RawMessage) (t : Tables) (env : Env)
    → Known (request session_id tool args ∷ []) t (new_approval session_id tool args env)
new_approval-Known session_id tool args t env = (
  new_approval session_id tool args env,
  inr (args, inl refl, refl, refl),
  (refl, refl, refl, refl, refl),
  inl (refl, refl),
)

create_approval-AllKnown :
    (session_id tool : String) (args : RawMessage) (db : Db)
    → AllKnown
        (request session_id tool args ∷ [])
        db.tables
        (create_approval session_id tool args db).1.tables
unfolding create_approval
create_approval-AllKnown session_id tool args db =
    let ops = request session_id tool args ∷ [] in
    let a = new_approval session_id tool args db.env in
    let u : Tables = record db.tables { approvals = db.tables.approvals ++ a ∷ [] } in
    run_statement-tables "create approval" _ (AllKnown ops db.tables) new_uuid db.faults db
      (as_before ops db.tables)
      (λ b t.
        if_elim (λ o. o ≡ some (b, t) → AllKnown ops db.tables t)
          (session_allowed session_id db.sessions && is_json (default_json args)) (some (a, u)) none
          (λ _ e.
            subst-some (AllKnown ops db.tables) (a, u) b t e
              λ c m. elim (append-Elem c db.tables.approvals _ m) [
                | inl old ↦ as_before ops db.tables c old
                | inr (inl new) ↦ rw new (new_approval-Known session_id tool args db.tables db.env)
                | inr (inr none') ↦ absurd none'
              ])
          (λ _ e. cc))

decided-Known :
    (id status by : String) (now : ℕ) (t : Tables) (b : Approval)
    → Elem b t.approvals
    → has_approval_id id b ≡ true
    → Known (decision id status by ∷ []) t (decide status by now b)
decided-Known id status by now t b m h =
    (b, inl m, (refl, refl, refl, refl, refl), inr (inl (rw (eq_of_== b.id id h) refl)))

decide_row-AllKnown :
    (id status by : String) (t : Tables) (env : Env) (found : Option Approval)
    (answer : Option Approval) (u : Tables)
    → decide_row id status by t env found ≡ some (answer, u)
    → AllKnown (decision id status by ∷ []) t u
decide_row-AllKnown id status by t env none answer u = λ e.
    subst-some (AllKnown (decision id status by ∷ []) t) (none, t) answer u e
      (as_before (decision id status by ∷ []) t)
decide_row-AllKnown id status by t env (some row) answer u =
    let ops = decision id status by ∷ [] in
    let v : Tables = record t {
      approvals = update (has_approval_id id) (decide status by env.now) t.approvals;
    } in
    if_elim (λ o. o ≡ some (answer, u) → AllKnown ops t u) (contains statuses status)
      (some (some (decide status by env.now row), v)) none
      (λ _ e.
        subst-some (AllKnown ops t) (some (decide status by env.now row), v) answer u e
          λ a m.
            let (b, held, how) =
              update-Elem (has_approval_id id) (decide status by env.now) a t.approvals m in
            elim how [
              | inl old ↦ as_before ops t a (rw old held)
              | inr (new, hit) ↦ rw new (decided-Known id status by env.now t b held hit)
            ])
      (λ _ e. cc)

or_not_found-AllKnown :
    (ops : List Operation) (t : Tables) (r : Result StoreError (Option Approval) × Db)
    → AllKnown ops t r.1.tables
    → AllKnown ops t (continue_with or_not_found r).1.tables
or_not_found-AllKnown ops t (ok none, db) h = h
or_not_found-AllKnown ops t (ok (some a), db) h = h
or_not_found-AllKnown ops t (err e, db) h = h

decide_approval-AllKnown :
    (id status by : String) (db : Db)
    → AllKnown (decision id status by ∷ []) db.tables (decide_approval id status by db).1.tables
unfolding decide_approval
decide_approval-AllKnown id status by db =
    let ops = decision id status by ∷ [] in
    or_not_found-AllKnown ops db.tables _ (
      run_statement-tables "decide approval"
        (λ t env. decide_row id status by t env (find? (has_approval_id id) t.approvals))
        (AllKnown ops db.tables) as_it_is db.faults db (as_before ops db.tables)
        (λ a u.
          decide_row-AllKnown id status by db.tables db.env
            (find? (has_approval_id id) db.tables.approvals) a u))

untouched-AllKnown : (op : Operation) (t u : Tables) → Kept t u → AllKnown (op ∷ []) t u
unfolding Kept
untouched-AllKnown op t u e a m = as_before (op ∷ []) t a (rw (← e) m)

run-AllKnown : (op : Operation) (db : Db) → AllKnown (op ∷ []) db.tables (run op db).tables
unfolding run Untouched
run-AllKnown (request session_id tool args) db = create_approval-AllKnown session_id tool args db
run-AllKnown (decision id status by) db = decide_approval-AllKnown id status by db
run-AllKnown op db = untouched-AllKnown op db.tables _ (run-Kept db op)

-- What is known after the first operation and after the others is known after all of them.
then-Known :
    (op : Operation) (ops : List Operation) (before t : Tables) (a : Approval)
    → AllKnown (op ∷ []) before t
    → Known ops t a
    → Known (op ∷ ops) before a
then-Known op ops before t a first (b, inr (args, m, e, p), like, done) =
    (b, inr (args, inr m, e, p), like, ground arith)
then-Known op ops before t a first (b, inl held, like, done) =
    let (c, origin, like', done') = first b held in (c, ground arith, ground arith, ground arith)

-- Over any history of the repository's operations, whichever of their statements fail, every
-- approval is one that the table held before, or one that a request of the history recorded as
-- pending, and has that one's id, session, tool, arguments and time; its status and its decider are
-- those that it had then, or those of a decision of the history for its id.
pub history-Known :
    (ops : List Operation) (db : Db) (a : Approval)
    → Elem a (history ops db).tables.approvals
    → Known ops db.tables a
unfolding history
history-Known [] db a m = as_before [] db.tables a m
history-Known (op ∷ ops) db a m =
    then-Known op ops db.tables (run op db).tables a (run-AllKnown op db)
      (history-Known ops (run op db) a m)
