-- ===== src/Gateway/Sync/Synced.antt =====
-- main.go: what a sync of the registry leaves, over the repository.
use sl_open_bark.Common.{String, List, [], ◌∷◌, string_eq, ◌≡◌, refl, sym, ◌⊎◌, inl, inr}
use mathlib.Core.Path.{subst}
use sl_open_bark.Common.Members.{Elem}
use sl_open_bark.Common.Result.{Result, ok, err, >>=-keeps, >>=_elim}
use sl_open_bark.Store.Models.{RawMessage, ServerInput}
use sl_open_bark.Store.Db.{Tables}
use sl_open_bark.Store.Registry.Registered.{AllInherit, AllInherit-IsKept, AllInherit-refl}
use sl_open_bark.Store.Registry.Stands.{Stands, Stands-IsKept}
use sl_open_bark.Infra.Tree.{Node, Found, child}
use sl_open_bark.Gateway.Manifest.{ManifestFile, LoadError, load_dir, paths_in, from_paths}
use sl_open_bark.Gateway.Manifest.Closed.{Complete}
use sl_open_bark.Gateway.Manifest.Loaded.{Reads, AllLoad, load_all-AllLoad}
use sl_open_bark.Gateway.Policy.{Gateway, repository, register}
use sl_open_bark.Gateway.Policy.Registers.{register-keeps, register-Stands}
use sl_open_bark.Gateway.Sync.{
  SyncError, load_failed, register_all, ended, from_loaded, sync_registry,
}

module _ (redact : RawMessage → RawMessage) where
  -- Whether the loop ends well or not, no server that stood is approved or switched by it, and a new one is only proposed.
  register_all-AllInherit :
      (before : Tables) (inputs : List ServerInput) (g : Gateway repository)
      → AllInherit before g.store.tables
      → AllInherit before (register_all repository redact inputs g).1.store.tables
  unfolding register_all
  register_all-AllInherit before [] g h = h
  register_all-AllInherit before (input ∷ rest) g h =
      >>=-keeps (λ (x : Gateway repository). AllInherit before x.store.tables)
        (register repository redact input) (λ _. register_all repository redact rest) g
        (register-keeps redact (AllInherit before) (AllInherit-IsKept before)
          (λ t rows k. record { inherits = k.inherits; stays = k.stays }) input g h)
        (λ _ x k. register_all-AllInherit before rest x k)

  register_all-keeps :
      (name : String) (inputs : List ServerInput) (g : Gateway repository)
      → Stands name g.store.tables
      → Stands name (register_all repository redact inputs g).1.store.tables
  unfolding register_all
  register_all-keeps name [] g h = h
  register_all-keeps name (input ∷ rest) g h =
      >>=-keeps (λ (x : Gateway repository). Stands name x.store.tables)
        (register repository redact input) (λ _. register_all repository redact rest) g
        (register-keeps redact (Stands name) (Stands-IsKept name) (λ t rows k. k) input g h)
        (λ _ x k. register_all-keeps name rest x k)

  register_all-Stands :
      (inputs : List ServerInput) (g : Gateway repository)
      → (register_all repository redact inputs g).0 ≡ ok tt
      → (input : ServerInput) → Elem input inputs
      → Stands input.name (register_all repository redact inputs g).1.store.tables
  unfolding register_all
  register_all-Stands [] g h input m = absurd m
  register_all-Stands (first ∷ rest) g h input m =
      >>=_elim (λ _. register_all repository redact rest)
        (λ r. r.0 ≡ ok tt → Stands input.name r.1.store.tables) (register repository redact first) g
        (λ e _ k. cc)
        (λ s fine k.
          let g₁ = (register repository redact first g).1 in
          elim m [
            | inl e ↦ register_all-keeps input.name rest g₁ (
                subst (λ (x : ServerInput). Stands x.name g₁.store.tables) (sym e)
                  (register-Stands redact first g s fine))
            | inr m' ↦ register_all-Stands rest g₁ k input m'
          ])
        h

module _ (parse : String → Result String ManifestFile) (redact : RawMessage → RawMessage) where
  -- What a sync of these files leaves, once they could be loaded.
  pub record Registered (fs : List Found) (g after : Gateway repository)
      (result : Result SyncError (Unit {0})) : Type 0 where
    pub complete : (f : Found) → Elem f fs → (m : ManifestFile) × Reads parse f m × Complete m
    pub inherit : AllInherit g.store.tables after.store.tables
    pub stand :
        result ≡ ok tt
        → (f : Found) → Elem f fs
        → (m : ManifestFile) × Reads parse f m × Stands m.name after.store.tables

  abbrev pub Synced :
      Node → Gateway repository → Result SyncError (Unit {0}) × Gateway repository → Type 0
  Synced root g (result, after) =
      ((e : LoadError) × (result ≡ err (load_failed e)) × (after ≡ g))
      ⊎ ((fs : List Found) × (paths_in parse (child "mcp-servers" root) ≡ ok fs)
          × Registered fs g after result)

  ended-ok :
      (r : Result _ (Unit {0}) × Gateway repository)
      → (ended repository redact r).0 ≡ ok tt
      → r.0 ≡ ok tt
  ended-ok (ok tt, g) h = refl
  ended-ok (err e, g) h = cc

  ended-state : (r : Result _ (Unit {0}) × Gateway repository) → (ended repository redact r).1 ≡ r.1
  ended-state (ok tt, g) = refl
  ended-state (err e, g) = refl

  registered :
      (fs : List Found) (inputs : List ServerInput) (g : Gateway repository)
      → AllLoad parse fs inputs
      → let r = from_loaded repository redact (ok inputs) g in Registered fs g r.1 r.0
  registered fs inputs g load' = record {
    complete = λ f m. let (input, held, loads) = load' f m in (loads.0, loads.1, loads.2);
    inherit =
        rw (ended-state (register_all repository redact inputs g))
          (register_all-AllInherit redact g.store.tables inputs g (AllInherit-refl g.store.tables));
    stand = λ fine f m.
        let (input, held, loads) = load' f m in
        (
          loads.0,
          loads.1,
          rw (ended-state (register_all repository redact inputs g)) (
              subst
                (λ (x : ServerInput).
                  Stands x.name (register_all repository redact inputs g).1.store.tables)
                loads.3
                (register_all-Stands redact inputs g
                  (ended-ok (register_all repository redact inputs g) fine) input held)),
        );
  }

  loaded-Synced :
      (root : Node) (g : Gateway repository) (paths : Result String (List Found))
      (l : Result LoadError (List ServerInput))
      → paths_in parse (child "mcp-servers" root) ≡ paths
      → from_paths parse paths ≡ l
      → Synced root g (from_loaded repository redact l g)
  loaded-Synced root g paths (err e) p h = inl (e, refl, refl)
  loaded-Synced root g (err e) (ok inputs) p h = cc
  loaded-Synced root g (ok fs) (ok inputs) p h =
      inr (fs, p, registered fs inputs g (load_all-AllLoad parse fs inputs h))

  -- A sync changes nothing if the walk or a manifest fails to load. Otherwise every manifest that the
  -- walk found is read, parsed and complete; wherever the sync ends, every server is then a new one, of
  -- a name that no server had, and only proposed, or stood in the table before under the same id and
  -- name, with the lifecycle and the switch that it has, and no server that stood is gone; and if the
  -- sync succeeds, each of the manifests has a server of its name in the tables.
  pub sync_registry-Synced :
      (root : Node) (g : Gateway repository)
      → Synced root g (sync_registry repository redact parse root g)
  unfolding sync_registry load_dir
  sync_registry-Synced root g =
      loaded-Synced root g (paths_in parse (child "mcp-servers" root))
        (from_paths parse (paths_in parse (child "mcp-servers" root))) refl refl
