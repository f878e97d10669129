-- ===== src/Store/Sessions.antt =====
-- sessions.go of the store: sessions, their turns, and the rolling summaries.
pub mod Recent
use sl_open_bark.Common.{
  ℕ, zero, suc, String, Bool, true, false, ◌&&◌, ◌||◌, List, [], ◌∷◌, ◌++◌, Option, none, some, leb,
  if◌then◌else◌, ◌==◌, contains, nat_eq, string_eq,
}
use sl_open_bark.Common.Lists.{take, filter, find?, update, any, sort_by}
use sl_open_bark.Common.Result.{◌>>=◌, raise, pure}
use sl_open_bark.Store.Models.{Session, Turn, Summary, User}
use sl_open_bark.Store.Db.{
  Env, Query, not_found, statement, insert_uuid, insert_identity, select, modify,
}
use sl_open_bark.Store.Governance.{or_not_found, session_exists}

-- The foreign key of sessions.user_id; "" stands for NULL (`nullable`).
abbrev pub user_allowed : String → List User → Bool
user_allowed id users = id == "" || any (λ u. u.id == id) users

abbrev pub new_session : String → String → String → String → Env → Session
new_session user_id channel thread_ts recipe env = record {
  id = env.uuid env.next_uuid;
  user_id = user_id;
  channel = channel;
  thread_ts = thread_ts;
  recipe = recipe;
  status = "active";
  created_at = env.now;
  updated_at = env.now;
}

unfoldable pub create_session : String → String → String → String → Query Session
create_session user_id channel thread_ts recipe = insert_uuid "create session" λ t env.
    if user_allowed user_id t.users
    then some (
      new_session user_id channel thread_ts recipe env,
      record t { sessions = t.sessions ++ new_session user_id channel thread_ts recipe env ∷ [] },
    )
    else none

abbrev pub has_session_id : String → Session → Bool
has_session_id id s = s.id == id

unfoldable pub get_session : String → Query Session
get_session id = do
  row ← select "get session" (λ t env. find? (has_session_id id) t.sessions)
  or_not_found row

abbrev pub in_thread : String → String → Session → Bool
in_thread channel thread_ts s = s.channel == channel && s.thread_ts == thread_ts

abbrev pub recent_session : Session → Session → Bool
recent_session s u = leb u.created_at s.created_at

abbrev pub head? : {A : Type 0} → List A → Option A
head? [] = none
head? (a ∷ rest) = some a

unfoldable pub get_session_by_thread : String → String → Query Session
get_session_by_thread channel thread_ts = do
  row ←
      select "get session by thread"
        (λ t env. head? (sort_by recent_session (filter (in_thread channel thread_ts) t.sessions)))
  or_not_found row

-- `if n == 0 { return ErrNotFound }`
abbrev pub affected : Bool → Query Unit
affected true = pure tt
affected false = raise not_found

unfoldable pub update_session_status : String → String → Query Unit
update_session_status id status = do
  found ← modify "update session status" (λ t env. (
    any (has_session_id id) t.sessions,
    record t {
      sessions =
          update (has_session_id id) (λ s. record s { status = status; updated_at = env.now })
            t.sessions;
    },
  ))
  affected found

-- The check constraint of turns.role.
abbrev pub turn_roles : List String
turn_roles = "system" ∷ "user" ∷ "assistant" ∷ "tool" ∷ []

abbrev pub new_turn : String → String → String → ℕ → Env → Turn
new_turn session_id role content tokens env = record {
  id = env.next_identity;
  session_id = session_id;
  role = role;
  content = content;
  tokens = tokens;
  created_at = env.now;
}

unfoldable pub add_turn : String → String → String → ℕ → Query Turn
add_turn session_id role content tokens = insert_identity "add turn" λ t env.
    if session_exists session_id t.sessions && contains turn_roles role
    then some (
      new_turn session_id role content tokens env,
      record t { turns = t.turns ++ new_turn session_id role content tokens env ∷ [] },
    )
    else none

-- `ORDER BY id ASC`, and `DESC`
abbrev pub earlier : Turn → Turn → Bool
earlier a b = leb a.id b.id

abbrev pub later : Turn → Turn → Bool
later a b = leb b.id a.id

abbrev pub turns_of : String → List Turn → List Turn
turns_of id = filter (λ turn. turn.session_id == id)

abbrev pub listed_turns : ℕ → List Turn → List Turn
listed_turns zero turns = sort_by earlier turns
listed_turns (suc n) turns = sort_by earlier (take (suc n) (sort_by later turns))

-- A limit of 0 stands for every limit that is not positive.
unfoldable pub list_turns : String → ℕ → Query (List Turn)
list_turns session_id limit =
    select "list turns" λ t env. listed_turns limit (turns_of session_id t.turns)

abbrev pub new_summary : String → String → Env → Summary
new_summary session_id summary env = record {
  session_id = session_id;
  summary = summary;
  updated_at = env.now;
}

abbrev pub has_summary_id : String → Summary → Bool
has_summary_id id s = s.session_id == id

abbrev pub put_summary : Summary → List Summary → List Summary
put_summary s rows =
    if any (has_summary_id s.session_id) rows
    then update (has_summary_id s.session_id) (λ _. s) rows
    else rows ++ s ∷ []

unfoldable pub upsert_summary : String → String → Query Summary
upsert_summary session_id summary = statement "upsert summary" λ t env.
    if session_exists session_id t.sessions
    then some (
      new_summary session_id summary env,
      record t { summaries = put_summary (new_summary session_id summary env) t.summaries },
    )
    else none

unfoldable pub get_summary : String → Query Summary
get_summary session_id = do
  row ← select "get summary" (λ t env. find? (has_summary_id session_id) t.summaries)
  or_not_found row
