-- ===== src/Store/Registry/Visible.antt =====
-- ListVisibleTools: the rows of the query.
use sl_open_bark.Common.{
  String, Bool, true, false, ◌&&◌, List, [], ◌∷◌, ◌==◌, contains, string_eq, ◌≡◌, refl, sym, ◌∙◌,
  inl, inr, arith, eq_of_==, ==_refl, Bool-cases, ap,
}
use mathlib.Core.Path.{subst}
use sl_open_bark.Common.Lists.{any, sort_by}
use sl_open_bark.Common.Members.{
  Elem, append-Elem, Elem-append_left, Elem-append_right, Elem-sort_by, sort_by-Elem,
}
use sl_open_bark.Common.Result.{ok}
use sl_open_bark.Store.Models.{ServerRow, Tool, VisibleTool}
use sl_open_bark.Store.Db.{Db, Grant}
use sl_open_bark.Store.Db.Laws.{select-ok}
use sl_open_bark.Store.Registry.{
  is_visible, visible_of, join_tools, join_servers, by_names, list_visible_tools,
}

-- A row of the join: a server with one of its tools.
pub record Joined (servers : List ServerRow) (tools : List Tool) (v : VisibleTool) : Type 0 where
  pub server : ServerRow
  pub tool : Tool
  pub server_held : Elem server servers
  pub tool_held : Elem tool tools
  pub owned : tool.server_id ≡ server.id
  pub shown : v ≡ visible_of server tool

join_tools-Elem :
    (s : ServerRow) (ts : List Tool) (v : VisibleTool)
    → Elem v (join_tools s ts)
    → (t : Tool) × Elem t ts × (t.server_id ≡ s.id) × (v ≡ visible_of s t)
join_tools-Elem s [] v m = absurd m
join_tools-Elem s (t ∷ ts) v m = elim (Bool-cases (s.id == t.server_id)) [
  | inl own ↦ elim (rw own at m) [
    | inl e ↦ (t, inl refl, sym (eq_of_== s.id t.server_id own), e)
    | inr m' ↦ later (join_tools-Elem s ts v m')
  ]
  | inr other ↦ later (join_tools-Elem s ts v (rw other at m))
]
  where
    later :
        (t' : Tool) × Elem t' ts × (t'.server_id ≡ s.id) × (v ≡ visible_of s t')
        → (t' : Tool) × Elem t' (t ∷ ts) × (t'.server_id ≡ s.id) × (v ≡ visible_of s t')
    later (t', m, o, e) = (t', inr m, o, e)

Elem-join_tools :
    (s : ServerRow) (ts : List Tool) (t : Tool)
    → Elem t ts
    → t.server_id ≡ s.id
    → Elem (visible_of s t) (join_tools s ts)
Elem-join_tools s [] t m o = absurd m
Elem-join_tools s (u ∷ ts) t (inl e) o =
    let own : (s.id == u.server_id) ≡ true =
      subst (λ x. (s.id == x) ≡ true) (sym o ∙ ap (λ (x : Tool). x.server_id) e) (==_refl s.id) in
    rw own (inl (rw e refl))
Elem-join_tools s (u ∷ ts) t (inr m) o = elim (Bool-cases (s.id == u.server_id)) [
  | inl own ↦ rw own (inr (Elem-join_tools s ts t m o))
  | inr other ↦ rw other (Elem-join_tools s ts t m o)
]

module _ (committees : List String) (grants : List Grant) where
  pub join_servers-Elem :
      (ss : List ServerRow) (ts : List Tool) (v : VisibleTool)
      → Elem v (join_servers committees grants ss ts)
      → (j : Joined ss ts v) × (is_visible committees grants j.server ≡ true)
  unfolding join_servers
  join_servers-Elem [] ts v m = absurd m
  join_servers-Elem (s ∷ ss) ts v m = elim (Bool-cases (is_visible committees grants s)) [
    | inl seen ↦ elim (append-Elem v (join_tools s ts) _ (rw seen at m)) [
      | inl here ↦
          let (t, held, own, e) = join_tools-Elem s ts v here in
          (
            record {
              server = s;
              tool = t;
              server_held = inl refl;
              tool_held = held;
              owned = own;
              shown = e;
            },
            seen,
          )
      | inr there ↦ later (join_servers-Elem ss ts v there)
    ]
    | inr hidden ↦ later (join_servers-Elem ss ts v (rw hidden at m))
  ]
    where
      later :
          (j : Joined ss ts v) × (is_visible committees grants j.server ≡ true)
          → (j : Joined (s ∷ ss) ts v) × (is_visible committees grants j.server ≡ true)
      later (j, seen) = (
        record {
          server = j.server;
          tool = j.tool;
          server_held = inr j.server_held;
          tool_held = j.tool_held;
          owned = j.owned;
          shown = j.shown;
        },
        seen,
      )

  pub Elem-join_servers :
      (ss : List ServerRow) (ts : List Tool) (s : ServerRow) (t : Tool)
      → Elem s ss
      → Elem t ts
      → t.server_id ≡ s.id
      → is_visible committees grants s ≡ true
      → Elem (visible_of s t) (join_servers committees grants ss ts)
  unfolding join_servers
  Elem-join_servers [] ts s t m h o seen = absurd m
  Elem-join_servers (u ∷ ss) ts s t (inl e) h o seen = rw (rw e at seen) (
      Elem-append_left _ (join_tools u ts) _
        (subst (λ x. Elem (visible_of s t) (join_tools x ts)) e (Elem-join_tools s ts t h o)))
  Elem-join_servers (u ∷ ss) ts s t (inr m) h o seen =
      let rest = Elem-join_servers ss ts s t m h o seen in
      elim (Bool-cases (is_visible committees grants u)) [
        | inl u_seen ↦ rw u_seen (Elem-append_right _ (join_tools u ts) _ rest)
        | inr u_hidden ↦ rw u_hidden rest
      ]

hidden_to_nobody : (grants : List Grant) (s : ServerRow) → is_visible [] grants s ≡ true → ⊥
hidden_to_nobody grants s h = nobody grants (and_right (s.lifecycle == "approved" && s.enabled) _ h)
  where
    and_right : (a b : Bool) → (a && b) ≡ true → b ≡ true
    and_right true b e = e
    and_right false b e = cc

    nobody :
        (gs : List Grant) → any (λ g. g.server_id == s.id && contains [] g.committee) gs ≡ true → ⊥
    nobody [] e = cc
    nobody (g ∷ gs) e = elim (Bool-cases (g.server_id == s.id)) [
      | inl own ↦ nobody gs (rw own at e)
      | inr other ↦ nobody gs (rw other at e)
    ]

-- A listing that succeeds returns exactly the joined rows of visible servers.
pub list_visible_tools-Joined :
    (committees : List String) (db : Db) (vs : List VisibleTool) (v : VisibleTool)
    → (list_visible_tools committees db).0 ≡ ok vs
    → Elem v vs
    → (j : Joined db.servers db.tools v) × (is_visible committees db.grants j.server ≡ true)
unfolding list_visible_tools
list_visible_tools-Joined [] db vs v h m = absurd (ground (arith, m))
list_visible_tools-Joined (c ∷ cs) db vs v h m =
    let e =
      select-ok "list visible tools"
        (λ t env. sort_by by_names (join_servers (c ∷ cs) t.grants t.servers t.tools)) db vs h in
    join_servers-Elem (c ∷ cs) db.grants db.servers db.tools v
      (sort_by-Elem by_names v _ (subst (Elem v) e m))

pub Joined-list_visible_tools :
    (committees : List String) (db : Db) (vs : List VisibleTool) (s : ServerRow) (t : Tool)
    → (list_visible_tools committees db).0 ≡ ok vs
    → Elem s db.servers
    → Elem t db.tools
    → t.server_id ≡ s.id
    → is_visible committees db.grants s ≡ true
    → Elem (visible_of s t) vs
unfolding list_visible_tools
Joined-list_visible_tools [] db vs s t h held own o seen =
    absurd (hidden_to_nobody db.grants s seen)
Joined-list_visible_tools (c ∷ cs) db vs s t h held own o seen =
    let e =
      select-ok "list visible tools"
        (λ t env. sort_by by_names (join_servers (c ∷ cs) t.grants t.servers t.tools)) db vs h in
    subst (Elem (visible_of s t)) (sym e) (
      Elem-sort_by by_names _ _
        (Elem-join_servers (c ∷ cs) db.grants db.servers db.tools s t held own o seen))
