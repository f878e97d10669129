-- ===== src/Slack/Handler/Mention.antt =====
-- handler.go: the text of a message without the mentions in it, `<@[A-Z0-9]+>`.
use Prim.Native.Char.{Char, code}
use sl_open_bark.Common.{
  ℕ, zero, suc, String, Bool, ◌&&◌, ◌||◌, if◌then◌else◌, ◌==◌, nat_eq, leb, ◌≡◌, refl, Option, none,
  some,
}
use sl_open_bark.Common.Text.{trim_space}

abbrev is_id_char : Char → Bool
is_id_char c = (leb b'A' (code c) && leb (code c) b'Z') || (leb b'0' (code c) && leb (code c) b'9')

abbrev add_one : Option ℕ → Option ℕ
add_one none = none
add_one (some n) = some (suc n)

-- How many characters `[A-Z0-9]*>` matches in front.
unfoldable pub id_length : String → Option ℕ
unfolding nat_eq
id_length String.[] = none
id_length (String.◌∷◌ c s) =
    let rest = id_length s in
    if code c == b'>' then some 1 else if is_id_char c then add_one rest else none

abbrev with_id : String → Option ℕ
with_id String.[] = none
with_id (String.◌∷◌ c s) = if is_id_char c then add_one (id_length s) else none

abbrev with_at : String → Option ℕ
with_at String.[] = none
with_at (String.◌∷◌ c s) = if code c == b'@' then add_one (with_id s) else none

-- The characters of the mention behind its first one, `<`.
abbrev behind : Char → String → Option ℕ
behind c s = if code c == b'<' then with_at s else none

abbrev skip_or : (ℕ → String) → Char → Option ℕ → String
skip_or rest c none = String.◌∷◌ c (rest zero)
skip_or rest c (some n) = rest n

-- `mentionRE.ReplaceAllString(s, "")`, where the first `skip` characters belong to a mention.
unfoldable pub without_mentions : ℕ → String → String
unfolding id_length nat_eq
without_mentions skip String.[] = String.[]
without_mentions (suc skip) (String.◌∷◌ c s) = without_mentions skip s
without_mentions zero (String.◌∷◌ c s) = skip_or (λ n. without_mentions n s) c (behind c s)

unfoldable pub clean_text : String → String
unfolding without_mentions trim_space
clean_text s = trim_space (without_mentions zero s)

clean_text_test : clean_text "<@U123BOT> screen the reimbursements" ≡ "screen the reimbursements"
unfolding clean_text
clean_text_test = refl
