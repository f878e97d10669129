-- ===== src/Gateway/Redact/Masking.antt =====
-- redact.go: the members of a redacted object.
use sl_open_bark.Common.{ℕ, String, Option, none, some, List, [], ◌∷◌, nat_eq, string_eq, ◌≡◌, ◌⊎◌}
use sl_open_bark.Common.Members.{Elem}
use sl_open_bark.Store.Models.{Json, text, Members, end_members, member}
use sl_open_bark.Gateway.Redact.{codes, sensitive_keys, to_lower}

-- The members of an object, in order.
abbrev pub members_of : Members → List (String × Json)
members_of end_members = []
members_of (member key value rest) = (key, value) ∷ members_of rest

module _ (wide : ℕ → ℕ) where
  -- The key is one of the sensitive ones, in any case.
  abbrev pub Sensitive : String → Type 0
  Sensitive key = (k : String) × Elem k sensitive_keys × (to_lower wide key ≡ codes k)

  module _ (decode : Json → Option Json) where
    -- A member of a redacted object: its key is sensitive and it shows `***`, or its key is not, and it
    -- shows what was decoded of a member with the key.
    abbrev pub Shown : Members → String → Json → Type 0
    Shown before key value =
        (Sensitive key × (value ≡ text "***"))
        ⊎ ((¬ Sensitive key)
            × ((v : Json) × Elem (key, v) (members_of before) × (decode v ≡ some value)))

    -- Each member of an object is one of these, and each key has one.
    pub record Masked (before after : Members) : Type 0 where
      pub shown :
          (key : String) (value : Json)
          → Elem (key, value) (members_of after)
          → Shown before key value
      pub keys :
          (key : String) (v : Json)
          → Elem (key, v) (members_of before)
          → (w : Json) × Elem (key, w) (members_of after)

    -- Some value does not decode.
    abbrev pub Undecoded : Members → Type 0
    Undecoded ms = (key : String) × (v : Json) × Elem (key, v) (members_of ms) × (decode v ≡ none)

    -- A map of the object: what its members hold, and its keys.
    pub record Decoded (ms obj : Members) : Type 0 where
      pub from :
          (key : String) (w : Json)
          → Elem (key, w) (members_of obj)
          → (v : Json) × Elem (key, v) (members_of ms) × (decode v ≡ some w)
      pub has :
          (key : String) (v : Json)
          → Elem (key, v) (members_of ms)
          → (w : Json) × Elem (key, w) (members_of obj)

    abbrev Unmarshalled : Members → Option Members → Type 0
    Unmarshalled ms o =
        ((obj : Members) × (o ≡ some obj) × Decoded ms obj) ⊎ ((o ≡ none) × Undecoded ms)

    abbrev Redacted : Members → String → Json → Type 0
    Redacted obj key value =
        (Sensitive key × (value ≡ text "***"))
        ⊎ ((¬ Sensitive key) × Elem (key, value) (members_of obj))
