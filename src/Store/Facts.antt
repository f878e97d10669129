-- ===== src/Store/Facts.antt =====
-- memory.go of the store: durable facts, each in one scope.
pub mod Scope
pub mod Isolation
use sl_open_bark.Common.{
  ℕ, zero, suc, String, Bool, true, false, not, ◌&&◌, ◌||◌, List, [], ◌∷◌, ◌++◌, Option, none, some,
  ltb, leb, if◌then◌else◌, ◌==◌, contains, nat_eq, string_eq,
}
use sl_open_bark.Common.Lists.{length, take, filter, any, sort_by}
use sl_open_bark.Common.Result.{raise}
use sl_open_bark.Common.Text.{text_le}
use sl_open_bark.Store.Models.{Fact, FactInput, FactQuery, scope_user, scope_committee, scope_org}
use sl_open_bark.Store.Db.{Tables, Env, Query, invalid_scope, insert_uuid, select, modify}

unfoldable pub valid_scope : String → Bool
valid_scope t = t == scope_user || t == scope_committee || t == scope_org

abbrev pub new_fact : FactInput → Env → Fact
new_fact input env = record {
  id = env.uuid env.next_uuid;
  scope_type = input.scope_type;
  scope_id = input.scope_id;
  key = input.key;
  value = input.value;
  tags = input.tags;
  source = input.source;
  created_at = env.now;
  expires_at = input.expires_at;
}

abbrev pub fact_inserted : FactInput → Tables → Env → Option (Fact × Tables)
fact_inserted input t env =
    some (new_fact input env, record t { facts = t.facts ++ new_fact input env ∷ [] })

abbrev pub insert_fact : FactInput → Query Fact
insert_fact input = insert_uuid "write fact" (fact_inserted input)

unfoldable pub write_fact : FactInput → Query Fact
write_fact input =
    if valid_scope input.scope_type
    then insert_fact input
    else raise (invalid_scope input.scope_type)

-- `expires_at IS NULL OR expires_at > now()`
unfoldable pub is_current : ℕ → Option ℕ → Bool
is_current now none = true
is_current now (some t) = ltb now t

-- `tags && ...`: the two lists share a tag.
unfoldable pub overlaps : List String → List String → Bool
overlaps [] wanted = false
overlaps (tag ∷ tags) wanted = contains wanted tag || overlaps tags wanted

abbrev pub tags_pass : List String → List String → Bool
tags_pass [] tags = true
tags_pass wanted tags = overlaps tags wanted

-- The conditions of the query, as `SearchFacts` puts them together.
unfoldable pub selected : FactQuery → ℕ → Fact → Bool
unfolding is_current overlaps
selected q now f =
    f.scope_type == q.scope_type
    && f.scope_id == q.scope_id
    && (q.include_expired || is_current now f.expires_at)
    && tags_pass q.tags f.tags

-- `ORDER BY created_at DESC, key`
abbrev pub newer : Fact → Fact → Bool
newer f g =
    ltb g.created_at f.created_at
    || (leb g.created_at f.created_at && leb f.created_at g.created_at && text_le f.key g.key)

-- `LIMIT`, for a limit that is positive
abbrev pub limited {ℓ} : {A : Type ℓ} → ℕ → List A → List A
limited zero rows = rows
limited (suc n) rows = take (suc n) rows

abbrev pub find_facts : FactQuery → Query (List Fact)
find_facts q =
    select "search facts"
      λ t env. limited q.limit (sort_by newer (filter (selected q env.now) t.facts))

unfoldable pub search_facts : FactQuery → Query (List Fact)
search_facts q =
    if valid_scope q.scope_type then find_facts q else raise (invalid_scope q.scope_type)

abbrev pub has_id : String → Fact → Bool
has_id id f = f.id == id

unfoldable pub forget_fact : String → Query Bool
forget_fact id =
    modify "forget fact" λ t env.
      (any (has_id id) t.facts, record t { facts = filter (λ f. not (has_id id f)) t.facts })

abbrev pub has_key : String → String → String → Fact → Bool
has_key scope_type scope_id key f =
    f.scope_type == scope_type && f.scope_id == scope_id && f.key == key

-- `DELETE`: the number of rows removed, and the rows that stay.
abbrev pub facts_deleted : (Fact → Bool) → Tables → Env → ℕ × Tables
facts_deleted hit t env =
    (length (filter hit t.facts), record t { facts = filter (λ f. not (hit f)) t.facts })

unfoldable pub forget_facts_by_key : String → String → String → Query ℕ
forget_facts_by_key scope_type scope_id key =
    modify "forget facts by key" (facts_deleted (has_key scope_type scope_id key))

-- `expires_at IS NOT NULL AND expires_at <= $1`
abbrev pub expired_by : ℕ → Option ℕ → Bool
expired_by before none = false
expired_by before (some t) = leb t before

unfoldable pub delete_expired_facts : ℕ → Query ℕ
delete_expired_facts before =
    modify "delete expired facts" (facts_deleted (λ f. expired_by before f.expires_at))
