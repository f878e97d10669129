-- ===== src/Store/Sessions/Recent.antt =====
-- ListTurns: the last turns of a session, in their order.
use sl_open_bark.Common.{
  ℕ, zero, suc, String, List, string_eq, ◌≡◌, sym, ap, ◌∙◌, ◌⊎◌, inl, inr, ◌≤◌, arith,
}
use Prim.Native.Nat.{min}
use mathlib.Core.Path.{subst}
use sl_open_bark.Common.Lists.{All, length, take, sort_by, length-sort_by, length-take, All-sort_by}
use sl_open_bark.Common.Members.{Elem, sort_by-Elem, Elem-sort_by}
use sl_open_bark.Common.Sorted.{IsSorted, sort_by-IsSorted, Elem-take, take-Elem}
use sl_open_bark.Common.Result.{ok}
use sl_open_bark.Store.Models.{Turn}
use sl_open_bark.Store.Db.{Db}
use sl_open_bark.Store.Db.Laws.{select-ok}
use sl_open_bark.Store.Sessions.{turns_of, listed_turns, list_turns, earlier, later}

abbrev pub InOrder : Turn → Turn → Type 0
InOrder a b = a.id ≤ b.id

abbrev Reversed : Turn → Turn → Type 0
Reversed a b = b.id ≤ a.id

earlier-IsSorted : (xs : List Turn) → IsSorted InOrder (sort_by earlier xs)
earlier-IsSorted =
    sort_by-IsSorted InOrder (λ x y z h k. omega arith) earlier (λ x y h. ground arith)
      (λ x y h. ground arith)

later-IsSorted : (xs : List Turn) → IsSorted Reversed (sort_by later xs)
later-IsSorted =
    sort_by-IsSorted Reversed (λ x y z h k. omega arith) later (λ x y h. ground arith)
      (λ x y h. ground arith)

-- A limit of 0 stands for none.
abbrev pub bounded : ℕ → ℕ → ℕ
bounded zero n = n
bounded (suc limit) n = min (suc limit) n

-- The turns of a listing: turns of the session in the order of their ids, as many as the limit lets
-- through, and a turn that is left out comes before all that are listed.
pub record Recent (limit : ℕ) (all out : List Turn) : Type 0 where
  pub in_order : IsSorted InOrder out
  pub of_session : (t : Turn) → Elem t out → Elem t all
  pub count : length out ≡ bounded limit (length all)
  pub latest : (t : Turn) → Elem t all → Elem t out ⊎ All (InOrder t) out

listed_turns-Recent : (limit : ℕ) (all : List Turn) → Recent limit all (listed_turns limit all)
listed_turns-Recent zero all = record {
  in_order = earlier-IsSorted all;
  of_session = λ t m. sort_by-Elem earlier t all m;
  count = length-sort_by earlier all;
  latest = λ t m. inl (Elem-sort_by earlier t all m);
}
listed_turns-Recent (suc n) all =
    let newest = sort_by later all in
    let cut = take (suc n) newest in
    record {
      in_order = earlier-IsSorted cut;
      of_session = λ t m.
          sort_by-Elem later t all (take-Elem (suc n) newest t (sort_by-Elem earlier t cut m));
      count =
          length-sort_by earlier cut
          ∙ length-take (suc n) newest
          ∙ ap (min (suc n)) (length-sort_by later all);
      latest = λ t m.
          elim (Elem-take Reversed (suc n) newest t (later-IsSorted all)
            (Elem-sort_by later t all m)) [
              | inl here ↦ inl (Elem-sort_by earlier t cut here)
              | inr past ↦ inr (All-sort_by earlier (InOrder t) cut past)
            ];
    }

-- A listing that succeeds returns turns of the session, in the order of their ids: as many as the
-- session has, or as the limit if that is positive and less; and a turn that is left out has an id
-- that is at most that of each turn that is listed.
pub list_turns-Recent :
    (session_id : String) (limit : ℕ) (db : Db) (out : List Turn)
    → (list_turns session_id limit db).0 ≡ ok out
    → Recent limit (turns_of session_id db.turns) out
unfolding list_turns
list_turns-Recent session_id limit db out h =
    subst (Recent limit (turns_of session_id db.turns))
      (sym (
        select-ok "list turns" (λ t env. listed_turns limit (turns_of session_id t.turns)) db out
          h))
      (listed_turns-Recent limit (turns_of session_id db.turns))
