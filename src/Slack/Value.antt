-- ===== src/Slack/Value.antt =====
-- blocks.go of the Slack gateway: the value of an approval card's buttons, which carries the ids of
-- the task and the approval.
pub mod RoundTrip
use Prim.Native.Char.{Char, code}
use sl_open_bark.Common.{
  String, ◌<>◌, Bool, false, ◌&&◌, Option, none, some, if◌then◌else◌, ◌==◌, nat_eq,
}

abbrev pub value_sep : String
value_sep = "::"

unfoldable pub encode_value : String → String → String
encode_value task_id approval_id = task_id <> (value_sep <> approval_id)

abbrev pub is_colon : Char → Bool
is_colon c = code c == b':'

abbrev pub starts_colon : String → Bool
starts_colon String.[] = false
starts_colon (String.◌∷◌ c s) = is_colon c

abbrev pub rest_of : String → String
rest_of String.[] = String.[]
rest_of (String.◌∷◌ c s) = s

abbrev pub cons_first : Char → Option (String × String) → Option (String × String)
cons_first c none = none
cons_first c (some (before, after)) = some (String.◌∷◌ c before, after)

-- The parts before and after the first separator, as `strings.SplitN(v, "::", 2)` finds them.
unfoldable pub cut : String → Option (String × String)
cut String.[] = none
cut (String.◌∷◌ c s) =
    let later = cut s in
    if is_colon c && starts_colon s then some (String.[], rest_of s) else cons_first c later

abbrev pub parts_or : String → Option (String × String) → String × String
parts_or v none = (v, "")
parts_or v (some parts) = parts

unfoldable pub decode_value : String → String × String
unfolding cut
decode_value v = parts_or v (cut v)
