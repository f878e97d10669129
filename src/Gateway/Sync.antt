-- ===== src/Gateway/Sync.antt =====
-- gateway/cmd/gateway/main.go: `gateway sync`, which registers the manifests of the repository.
pub mod Synced
use sl_open_bark.Common.{String, List, [], ◌∷◌}
use sl_open_bark.Common.Result.{Result, ok, err, Action, pure, ◌>>◌, ◌>>=◌}
use sl_open_bark.Store.Models.{RawMessage, ServerInput}
use sl_open_bark.Infra.Tree.{Node}
use sl_open_bark.Gateway.Manifest.{ManifestFile, LoadError, load_dir}
use sl_open_bark.Gateway.Policy.{Store, Gateway, GatewayError, register}

pub data SyncError : Type 0 where
  load_failed : LoadError → SyncError
  register_failed : GatewayError → SyncError

module _ (S : Store) (redact : RawMessage → RawMessage) where
  -- The loop over the loaded servers, up to the first that cannot be registered.
  unfoldable pub register_all : List ServerInput → Action (Gateway S) GatewayError (Unit {0})
  register_all [] = pure tt
  register_all (input ∷ rest) = register S redact input >>= λ _. register_all rest

  abbrev pub ended :
      Result GatewayError (Unit {0}) × Gateway S → Result SyncError (Unit {0}) × Gateway S
  ended (ok a, g) = (ok a, g)
  ended (err e, g) = (err (register_failed e), g)

  abbrev pub from_loaded :
      Result LoadError (List ServerInput) → Action (Gateway S) SyncError (Unit {0})
  from_loaded (err e) g = (err (load_failed e), g)
  from_loaded (ok inputs) g = ended (register_all inputs g)

  unfoldable pub sync_registry :
      (String → Result String ManifestFile) → Node → Action (Gateway S) SyncError (Unit {0})
  unfolding load_dir register_all
  sync_registry parse root = from_loaded (load_dir parse root)
