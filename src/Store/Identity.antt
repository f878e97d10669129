-- ===== src/Store/Identity.antt =====
-- identity.go of the store: users by their Slack id, and committee roles.
use sl_open_bark.Common.{
  ℕ, String, Bool, not, ◌&&◌, List, [], ◌∷◌, ◌++◌, Option, none, some, if◌then◌else◌, ◌==◌, nat_eq,
  string_eq,
}
use sl_open_bark.Common.Lists.{filter, find?, update, any, sort_by}
use sl_open_bark.Common.Result.{◌>>=◌}
use sl_open_bark.Common.Text.{text_le}
use sl_open_bark.Store.Models.{User, CommitteeRole}
use sl_open_bark.Store.Db.{Tables, Env, Query, statement, insert_uuid, select, modify}
use sl_open_bark.Store.Governance.{or_not_found}

abbrev pub has_slack_id : String → User → Bool
has_slack_id slack_id u = u.slack_id == slack_id

abbrev pub new_user : String → String → String → Env → User
new_user slack_id name email env = record {
  id = env.uuid env.next_uuid;
  slack_id = slack_id;
  name = name;
  email = email;
  created_at = env.now;
}

abbrev pub rename : String → String → User → User
rename name email u = record u { name = name; email = email }

abbrev pub put_user : String → String → String → Tables → Env → Option User → User × Tables
put_user slack_id name email t env none = (
  new_user slack_id name email env,
  record t { users = t.users ++ new_user slack_id name email env ∷ [] },
)
put_user slack_id name email t env (some u) = (
  rename name email u,
  record t { users = update (has_slack_id slack_id) (rename name email) t.users },
)

unfoldable pub upsert_user : String → String → String → Query User
upsert_user slack_id name email =
    insert_uuid "upsert user"
      λ t env. some (put_user slack_id name email t env (find? (has_slack_id slack_id) t.users))

unfoldable pub get_user_by_slack_id : String → Query User
get_user_by_slack_id slack_id = do
  row ← select "get user by slack id" (λ t env. find? (has_slack_id slack_id) t.users)
  or_not_found row

abbrev pub is_membership : String → String → CommitteeRole → Bool
is_membership user_id committee r = r.user_id == user_id && r.committee == committee

abbrev pub put_role : String → String → String → ℕ → List CommitteeRole → List CommitteeRole
put_role user_id committee role now rows =
    if any (is_membership user_id committee) rows
    then update (is_membership user_id committee) (λ r. record r { role = role }) rows
    else rows
      ++ record { user_id = user_id; committee = committee; role = role; created_at = now } ∷ []

-- The foreign key of committee_roles.user_id refuses an unknown user.
unfoldable pub set_committee_role : String → String → String → Query Unit
set_committee_role user_id committee role = statement "set committee role" λ t env.
    if any (λ u. u.id == user_id) t.users
    then some (tt, record t { roles = put_role user_id committee role env.now t.roles })
    else none

unfoldable pub list_committee_roles : String → Query (List CommitteeRole)
list_committee_roles user_id = select "list committee roles" λ t env.
    sort_by (λ a b. text_le a.committee b.committee) (filter (λ r. r.user_id == user_id) t.roles)

unfoldable pub remove_committee_role : String → String → Query Bool
remove_committee_role user_id committee = modify "remove committee role" λ t env. (
  any (is_membership user_id committee) t.roles,
  record t { roles = filter (λ r. not (is_membership user_id committee r)) t.roles },
)
