-- ===== src/Store/Registry/Registered.antt =====
-- RegisterServer: the lifecycles and the switches after a registration.
use sl_open_bark.Common.{
  String, List, [], ◌∷◌, Option, none, some, string_eq, ◌≡◌, ◌≢◌, refl, ap, ◌∙◌, ◌⊎◌, inl, inr,
  arith,
}
use sl_open_bark.Common.Lists.{find?}
use sl_open_bark.Common.Members.{Elem, append-Elem, update-Elem}
use sl_open_bark.Store.Registry.Kept.{IsKept, register_server-keeps}
use sl_open_bark.Store.Registry.Stands.{Stands, Stands-IsKept}
use sl_open_bark.Store.Models.{ServerInput, ServerRow, lifecycle_proposed}
use sl_open_bark.Store.Db.{Db, Env, Tables}
use sl_open_bark.Store.Registry.{named, refresh, put_server, register_server}

-- The server is new, of a name that no server had, and only proposed; or it stood in the table with
-- the lifecycle and the switch it has.
abbrev pub Inherits : Tables → ServerRow → Type 0
Inherits before s =
    ((s.lifecycle ≡ lifecycle_proposed)
      × ((r : ServerRow) → Elem r before.servers → r.name ≢ s.name))
    ⊎ ((r : ServerRow) × Elem r before.servers
        × (r.id ≡ s.id)
        × (r.name ≡ s.name)
        × (r.lifecycle ≡ s.lifecycle)
        × (r.enabled ≡ s.enabled))

-- Every server is new and proposed, or as it was; and none of those that stood has gone.
pub record Inherited (before t : Tables) : Type 0 where
  pub inherits : (s : ServerRow) → Elem s t.servers → Inherits before s
  pub stays : (r : ServerRow) → Elem r before.servers → Stands r.name t

abbrev pub AllInherit : Tables → Tables → Type 0
AllInherit before t = Inherited before t

not_found-named :
    (name : String) (rows : List ServerRow)
    → find? (named name) rows ≡ none
    → (r : ServerRow) → Elem r rows
    → r.name ≢ name
not_found-named name [] e r m = absurd m
not_found-named name (x ∷ xs) e r (inl here) =
    λ same. ground (arith, ap (λ (y : ServerRow). y.name) here)
not_found-named name (x ∷ xs) e r (inr m) = not_found-named name xs (ground arith) r m

module _ (before : Tables) where
  put_server-Inherits :
      (input : ServerInput) (t : Tables) (env : Env) (found : Option ServerRow)
      → find? (named input.name) t.servers ≡ found
      → AllInherit before t
      → (s : ServerRow) → Elem s (put_server input t env found).1.servers
      → Inherits before s
  put_server-Inherits input t env none missing h s m = elim (append-Elem s t.servers _ m) [
    | inl old ↦ h.inherits s old
    | inr (inl e) ↦ inl (
      rw e refl,
      λ r held same.
          let (u, there, named') = h.stays r held in
          not_found-named input.name t.servers missing u there
            (named' ∙ same ∙ ap (λ (x : ServerRow). x.name) e),
    )
    | inr (inr none') ↦ absurd none'
  ]
  put_server-Inherits input t env (some found) missing h s m =
      let (r, held, how) = update-Elem (named input.name) (refresh input env.now) s t.servers m in
      elim how [ inl e ↦ rw e (h.inherits r held) | inr (e, _) ↦ rw e (h.inherits r held) ]

  pub AllInherit-IsKept : IsKept (AllInherit before)
  AllInherit-IsKept = record {
    put = λ input t env found e h. record {
      inherits = put_server-Inherits input t env found e h;
      stays = λ r m. (Stands-IsKept r.name).put input t env found e (h.stays r m);
    };
    tools = λ t xs h. record { inherits = h.inherits; stays = h.stays };
    grants = λ t gs h. record { inherits = h.inherits; stays = h.stays };
  }

  pub AllInherit-refl : AllInherit before before
  AllInherit-refl = record {
    inherits = λ s m. inr (s, m, refl, refl, refl, refl);
    stays = λ r m. (r, m, refl);
  }

-- After a registration, whether it succeeds or fails at any statement, every server is a new one, of
-- a name that no server had before, and only proposed; or it stood in the table before under the same
-- id and name, with the lifecycle and the switch that it has. No server that stood is gone.
pub register_server-AllInherit :
    (input : ServerInput) (db : Db) → AllInherit db.tables (register_server input db).1.tables
register_server-AllInherit input db =
    register_server-keeps (AllInherit db.tables) (AllInherit-IsKept db.tables) input db
      (AllInherit-refl db.tables)
