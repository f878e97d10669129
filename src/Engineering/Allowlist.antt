-- ===== src/Engineering/Allowlist.antt =====
-- authz.go: who is allowed.
use mathlib.Core.Path.{subst}
use sl_open_bark.Common.{
  String, true, List, [], ◌∷◌, map, string_eq, contains, ◌≡◌, ◌≢◌, ◌↔◌, inl, inr, ap, sym, arith,
}
use sl_open_bark.Common.Members.{Elem, filter-Elem, Elem-filter, map-Elem}
use sl_open_bark.Common.Text.{trim_space}
use sl_open_bark.Engineering.{not_blank, names_of, new_allow, can_trigger}

-- The name is not blank, and stands in the list, with or without spaces around it.
abbrev pub Listed : List String → String → Type 0
Listed names name = (name ≢ "") × ((n : String) × Elem n names × (trim_space n ≡ name))

contains-Elem : (xs : List String) (a : String) → contains xs a ≡ true → Elem a xs
contains-Elem [] a h = cc
contains-Elem (x ∷ xs) a h = ground (arith, contains-Elem xs a)

Elem-contains : (xs : List String) (a : String) → Elem a xs → contains xs a ≡ true
Elem-contains [] a m = absurd m
Elem-contains (x ∷ xs) a m = ground (arith, Elem-contains xs a)

Elem-map :
    (names : List String) (n : String) → Elem n names → Elem (trim_space n) (map trim_space names)
Elem-map [] n m = absurd m
Elem-map (k ∷ ks) n (inl e) = inl (ap trim_space e)
Elem-map (k ∷ ks) n (inr m) = inr (Elem-map ks n m)

kept-Listed :
    (names : List String) (name : String)
    → contains (names_of names) name ≡ true
    → Listed names name
unfolding names_of
kept-Listed names name h =
    let (m, full) = filter-Elem not_blank name (map trim_space names) (contains-Elem _ name h) in
    let (n, held, e) = map-Elem trim_space name names m in (ground arith, (n, held, sym e))

Listed-kept :
    (names : List String) (name : String)
    → Listed names name
    → contains (names_of names) name ≡ true
unfolding names_of
Listed-kept names name (full, (n, m, e)) = Elem-contains _ name (
    Elem-filter not_blank name (map trim_space names)
      (subst (λ x. Elem x (map trim_space names)) e (Elem-map names n m)) (ground arith))

-- A user may trigger a task on a repository exactly if both are on their lists: a name that is blank
-- is on none, and spaces around the names of the lists do not count.
pub can_trigger-Listed :
    (maintainers repos : List String) (user repo : String)
    → (can_trigger (new_allow maintainers repos) user repo ≡ true)
      ↔ (Listed maintainers user × Listed repos repo)
unfolding can_trigger
can_trigger-Listed maintainers repos user repo =
    let in_users = kept-Listed maintainers user in
    let in_repos = kept-Listed repos repo in
    (
      λ h. (in_users (ground arith), in_repos (ground arith)),
      λ (m, r).
          let both : contains (names_of maintainers) user ≡ true = Listed-kept maintainers user m in
          let also : contains (names_of repos) repo ≡ true = Listed-kept repos repo r in
          rw both also,
    )
