-- ===== src/Gateway/Policy/Listed.antt =====
-- gateway.go over the repository: the tools that a caller is shown are those it may call.
use sl_open_bark.Common.{
  String, Bool, true, ◌&&◌, List, [], ◌∷◌, ◌==◌, contains, string_eq, ◌≡◌, ◌↔◌, arith, eq_of_==,
  ==_refl, sym,
}
use mathlib.Core.Path.{subst}
use sl_open_bark.Common.Lists.{any}
use sl_open_bark.Common.Members.{Elem, Elem-filter, Elem-sort_by, Elem-map, any-Elem, Elem-any}
use sl_open_bark.Common.Result.{ok}
use sl_open_bark.Common.Text.{text_le}
use sl_open_bark.Store.Models.{ServerRow, VisibleTool, RawMessage}
use sl_open_bark.Store.Db.{Tables, Grant}
use sl_open_bark.Store.Registry.{is_visible}
use sl_open_bark.Store.Registry.Resolve.{loaded, loaded-Held}
use sl_open_bark.Store.Registry.Visible.{
  Joined, list_visible_tools-Joined, Joined-list_visible_tools,
}
use sl_open_bark.Gateway.Policy.{Identity, Gateway, repository, list_tools, authorized, shares}
use sl_open_bark.Gateway.Policy.Gate.{of_store-ok}
use sl_open_bark.Gateway.Policy.Cleared.{contains-Elem, shares-Elem}

Elem-contains : (xs : List String) (a : String) → Elem a xs → contains xs a ≡ true
Elem-contains [] a m = absurd m
Elem-contains (x ∷ xs) a m = ground (arith, Elem-contains xs a)

Elem-shares :
    (c : String) (cs granted : List String) → Elem c cs → Elem c granted → shares cs granted ≡ true
Elem-shares c [] granted m k = absurd m
Elem-shares c (d ∷ cs) granted m k =
    ground (arith, Elem-contains granted c k, Elem-shares c cs granted)

module _ (t : Tables) (s : ServerRow) (cs : List String) where
  granted_to : Grant → Bool
  granted_to g = g.server_id == s.id && contains cs g.committee

  -- The grants of the loaded server are those of the tables.
  Elem-granted :
      (g : Grant) → Elem g t.grants → g.server_id ≡ s.id → Elem g.committee (loaded t s).committees
  Elem-granted g m own = Elem-sort_by text_le g.committee _ (
      Elem-map (λ (x : Grant). x.committee) g _
        (Elem-filter (λ (x : Grant). x.server_id == s.id) g t.grants m
          (subst (λ x. (x == s.id) ≡ true) (sym own) (==_refl s.id))))

  granted_to-shares : any granted_to t.grants ≡ true → shares cs (loaded t s).committees ≡ true
  unfolding granted_to
  granted_to-shares h =
      let (g, m, k) = any-Elem granted_to t.grants h in
      Elem-shares g.committee cs _ (contains-Elem cs g.committee (ground arith))
        (Elem-granted g m (eq_of_== g.server_id s.id (ground arith)))

  shares-granted_to :
      Elem s t.servers → shares cs (loaded t s).committees ≡ true → any granted_to t.grants ≡ true
  unfolding granted_to
  shares-granted_to held h =
      let (c, m, k) = shares-Elem cs _ h in
      Elem-any granted_to (record { server_id = s.id; committee = c }) t.grants
        ((loaded-Held t s held).granted c k) (ground (arith, ==_refl s.id, Elem-contains cs c m))

is_visible-authorized :
    (t : Tables) (s : ServerRow) (id : Identity)
    → is_visible id.committees t.grants s ≡ true
    → authorized (loaded t s) id ≡ true
unfolding authorized granted_to
is_visible-authorized t s id h = ground (arith, granted_to-shares t s id.committees)

authorized-is_visible :
    (t : Tables) (s : ServerRow) (id : Identity)
    → Elem s t.servers
    → authorized (loaded t s) id ≡ true
    → is_visible id.committees t.grants s ≡ true
unfolding authorized granted_to
authorized-is_visible t s id held h = ground (arith, shares-granted_to t s id.committees held)

-- A tool of a server of the tables, as the listing shows it, whose server the check of a call lets
-- the caller use.
pub record Callable (t : Tables) (id : Identity) (v : VisibleTool) : Type 0 where
  pub joined : Joined t.servers t.tools v
  pub may_call : authorized (loaded t joined.server) id ≡ true

-- A tool is listed to a caller exactly if the tables hold it, with the server that the listing names,
-- and the check that a call of this server's tools has to pass lets the caller through.
pub list_tools-Callable :
    (redact : RawMessage → RawMessage) (id : Identity) (g : Gateway repository)
    (vs : List VisibleTool) (v : VisibleTool)
    → (list_tools repository redact id g).0 ≡ ok vs
    → Elem v vs ↔ Callable g.store.tables id v
unfolding list_tools
list_tools-Callable redact id g vs v h =
    let t = g.store.tables in
    let listed =
      of_store-ok repository redact (repository.list_visible_tools id.committees) g vs h in
    (
      λ m.
          let (j, seen) = list_visible_tools-Joined id.committees g.store vs v listed m in
          record { joined = j; may_call = is_visible-authorized t j.server id seen },
      λ c.
          let j = c.joined in
          rw j.shown (
            Joined-list_visible_tools id.committees g.store vs j.server j.tool listed j.server_held
              j.tool_held j.owned (authorized-is_visible t j.server id j.server_held c.may_call)),
    )
