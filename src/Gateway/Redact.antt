-- ===== src/Gateway/Redact.antt =====
-- gateway/internal/policy/redact.go: what the audit log sees of a call's arguments. A payload is
-- taken by its parse (Store/Models), so an object is its members, in any order. `wide` is the lower
-- case of the code points above ASCII, from the tables of package unicode. `decode` is what package json
-- prints of a value that it has decoded, or none where it does not decode it, as a number outside
-- float64.
pub mod Masking
use Prim.Native.Char.{code}
use sl_open_bark.Common.{
  ℕ, ◌+◌, String, Bool, true, false, ◌&&◌, ◌||◌, List, [], ◌∷◌, Option, none, some, ltb, leb,
  if◌then◌else◌, ◌==◌, nat_eq, string_eq, map,
}
use sl_open_bark.Store.Models.{
  Json, text, object, Members, end_members, member, RawMessage, empty, document, malformed,
}

-- The code points of a text; two texts are equal if these are.
abbrev pub codes : String → List ℕ
codes String.[] = []
codes (String.◌∷◌ c s) = code c ∷ codes s

abbrev pub same_codes : List ℕ → List ℕ → Bool
same_codes [] [] = true
same_codes (a ∷ as') (b ∷ bs) = a == b && same_codes as' bs
same_codes _ _ = false

abbrev pub sensitive_keys : List String
sensitive_keys =
    "authorization" ∷ "token" ∷ "api_key" ∷ "apikey" ∷ "password" ∷ "secret" ∷ "access_token"
    ∷ "refresh_token" ∷ []

module _ (wide : ℕ → ℕ) where
  -- `unicode.ToLower`
  unfoldable pub lower : ℕ → ℕ
  lower c = if ltb c 128 then (if leb b'A' c && leb c b'Z' then c + 32 else c) else wide c

  -- `strings.ToLower`, by its code points
  unfoldable pub to_lower : String → List ℕ
  to_lower s = map lower (codes s)

  abbrev listed : List ℕ → List String → Bool
  listed key [] = false
  listed key (k ∷ ks) = same_codes key (codes k) || listed key ks

  unfoldable pub is_sensitive : String → Bool
  unfolding to_lower
  is_sensitive key = listed (to_lower key) sensitive_keys

  abbrev pub mask : Bool → Json → Json
  mask sensitive value = if sensitive then text "***" else value

  pub redact_members : Members → Members
  redact_members end_members = end_members
  redact_members (member key value rest) =
      member key (mask (is_sensitive key) value) (redact_members rest)

  -- The object as a map: of members with one key, the last is left.
  abbrev has_key : String → Members → Bool
  has_key key end_members = false
  has_key key (member k v rest) = k == key || has_key key rest

  abbrev put_first : String → Option Json → Option Members → Option Members
  put_first key none rest = none
  put_first key (some v) none = none
  put_first key (some v) (some ms) = some (if has_key key ms then ms else member key v ms)

  module _ (decode : Json → Option Json) where
    -- `json.Unmarshal` into a map
    pub unmarshal : Members → Option Members
    unmarshal end_members = some end_members
    unmarshal (member key value rest) = put_first key (decode value) (unmarshal rest)

    abbrev pub redacted : Members → Option Members → RawMessage
    redacted ms (some obj) = document (object (redact_members obj))
    redacted ms none = document (object ms)

    -- An empty payload becomes `{}`; what does not decode to a map is left as it is. (`null` gives a
    -- nil map, which is printed as `null` again.)
    unfoldable pub redact_args : RawMessage → RawMessage
    unfolding redact_members unmarshal
    redact_args empty = document (object end_members)
    redact_args (document (object ms)) = redacted ms (unmarshal ms)
    redact_args (document other) = document other
    redact_args (malformed bytes) = malformed bytes
