-- ===== src/Store/Governance/Decided.antt =====
-- governance.go of the store: the row of an approval after its decision.
use sl_open_bark.Common.{
  String, Bool, true, List, [], ◌∷◌, Option, none, some, nat_eq, string_eq, ◌≡◌, inl, inr, refl,
  arith,
}
use sl_open_bark.Common.Lists.{update, find?}
use sl_open_bark.Common.Members.{Elem, find?-Elem}
use sl_open_bark.Common.Result.{Result, ok, err, continue_with}
use sl_open_bark.Store.Models.{Approval}
use sl_open_bark.Store.Db.{Tables, Env, Db, StoreError, statement}
use sl_open_bark.Store.Db.Laws.{run_statement-ok}
use sl_open_bark.Store.Governance.{
  decide, decide_row, decide_approval, has_approval_id, or_not_found,
}

Elem-update :
    {A : Type 0} (p : A → Bool) (f : A → A) (x : A) (xs : List A)
    → Elem x xs
    → p x ≡ true
    → Elem (f x) (update p f xs)
Elem-update p f x [] m h = m
Elem-update p f x (y ∷ ys) (inl e) h = ground arith
Elem-update p f x (y ∷ ys) (inr m) h = inr (Elem-update p f x ys m h)

-- The row is in the table as it was returned, with the status of the decision.
abbrev pub Recorded : String → Approval → Tables → Type 0
Recorded status a t = Elem a t.approvals × (a.status ≡ status)

decide_row-Recorded :
    (id status by : String) (t u : Tables) (env : Env) (o : Option Approval) (a : Approval)
    → find? (has_approval_id id) t.approvals ≡ o
    → decide_row id status by t env o ≡ some (some a, u)
    → Recorded status a u
decide_row-Recorded id status by t u env none a e h = cc
decide_row-Recorded id status by t u env (some b) a e h =
    let (m, same) = find?-Elem (has_approval_id id) b t.approvals e in
    ground (arith, Elem-update (has_approval_id id) (decide status by env.now) b t.approvals m same)

or_not_found-ok :
    (r : Result StoreError (Option Approval) × Db) (a : Approval)
    → (continue_with or_not_found r).0 ≡ ok a
    → (r.0 ≡ ok (some a)) × ((continue_with or_not_found r).1 ≡ r.1)
or_not_found-ok (ok none, db) a h = cc
or_not_found-ok (ok (some b), db) a h = (cc, refl)
or_not_found-ok (err e, db) a h = cc

-- A decision that succeeds is in the table.
pub decide_approval-Recorded :
    (id status by : String) (db : Db) (a : Approval)
    → (decide_approval id status by db).0 ≡ ok a
    → Recorded status a (decide_approval id status by db).1.tables
unfolding decide_approval
decide_approval-Recorded id status by db a h =
    let (found, same) = or_not_found-ok (change db) a h in
    rw same (
      decide_row-Recorded id status by db.tables (change db).1.tables db.env _ a refl
        (run_statement-ok "decide approval" body (λ env. env) db.faults db (some a) found))
  where
    body : Tables → Env → Option (Option Approval × Tables)
    body t env = decide_row id status by t env (find? (has_approval_id id) t.approvals)

    change : Db → Result StoreError (Option Approval) × Db
    change = statement "decide approval" body
