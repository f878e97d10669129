-- ===== src/Assembly/Builder.antt =====
-- services/session-memory/internal/assembly/builder.go: the context of a turn, from the store and
-- the static parts. `utf8` gives the bytes of a text.
pub mod Scoped
use sl_open_bark.Common.{
  ℕ, zero, suc, String, ◌<>◌, Bool, true, false, not, ◌&&◌, ◌||◌, List, [], ◌∷◌, Option, none, some,
  if◌then◌else◌, ◌==◌, string_eq, ltb,
}
use sl_open_bark.Common.Int.{ℤ, pos, negsuc}
use sl_open_bark.Common.Result.{Result, ok, err, Action, pure, raise, continue_with, ◌>>=◌, ◌>>◌}
use sl_open_bark.Common.Text.{trim_space}
use sl_open_bark.Store.Models.{Fact, FactInput, FactQuery, Summary, Turn}
use sl_open_bark.Store.Db.{Db, Query, StoreError, not_found}
use sl_open_bark.Store.Facts.{search_facts, write_fact}
use sl_open_bark.Store.Sessions.{get_summary, list_turns, upsert_summary}
use sl_open_bark.Assembly.{Bytes, Part, Assembled, TokenCounter, assemble}

-- Counts of 0 stand for every count that is not positive.
pub record TurnInput : Type 0 where
  pub session_id : String
  pub scope_type : String
  pub scope_id : String
  pub memory_tags : List String
  pub memory_top_k : ℕ
  pub recent_turns : ℕ
  pub system_prompt : String
  pub goose_hints : String
  pub recipe_instructions : String
  pub tool_output : String
  pub budget : ℤ

-- `strings.Join(tags, ", ")`
abbrev join_tags : List String → String
join_tags [] = ""
join_tags (t ∷ []) = t
join_tags (t ∷ u ∷ ts) = (t <> ", ") <> join_tags (u ∷ ts)

abbrev tag_list : List String → String
tag_list [] = ""
tag_list (t ∷ ts) = (" [" <> join_tags (t ∷ ts)) <> "]"

abbrev fact_lines : List Fact → String
fact_lines [] = ""
fact_lines (f ∷ fs) = ("\n- " <> (f.key <> (": " <> (f.value <> tag_list f.tags)))) <> fact_lines fs

abbrev pub format_facts : List Fact → String
format_facts [] = ""
format_facts (f ∷ fs) = "Relevant memory:" <> fact_lines (f ∷ fs)

abbrev turn_lines : List Turn → String
turn_lines [] = ""
turn_lines (t ∷ ts) = ("\n" <> (t.role <> (": " <> t.content))) <> turn_lines ts

abbrev pub format_turns : List Turn → String
format_turns [] = ""
format_turns (t ∷ ts) = "Recent conversation:" <> turn_lines (t ∷ ts)

abbrev pub prefixed : String → String → String
prefixed prefix body = if trim_space body == "" then "" else (prefix <> "\n") <> body

abbrev pub memory_query : TurnInput → FactQuery
memory_query input = record {
  scope_type = input.scope_type;
  scope_id = input.scope_id;
  tags = input.memory_tags;
  limit = input.memory_top_k;
  include_expired = false;
}

-- The facts of the scope, if the input names one.
unfoldable pub retrieve_memory : TurnInput → Query (List Fact)
retrieve_memory input =
    if not (input.scope_type == "") && not (input.scope_id == "")
    then search_facts (memory_query input)
    else pure []

-- A session without a summary has a blank one.
abbrev summary_or_blank : Result StoreError Summary × Db → Result StoreError String × Db
summary_or_blank (ok s, db) = (ok (trim_space s.summary), db)
summary_or_blank (err not_found, db) = (ok "", db)
summary_or_blank (err e, db) = (err e, db)

unfoldable pub retrieve_summary : TurnInput → Query String
retrieve_summary input db =
    if input.session_id == ""
    then (ok "", db)
    else summary_or_blank (get_summary input.session_id db)

unfoldable pub retrieve_turns : TurnInput → Query (List Turn)
retrieve_turns input =
    if not (input.session_id == "") && ltb 0 input.recent_turns
    then list_turns input.session_id input.recent_turns
    else pure []

module _ (utf8 : String → Bytes) (count : Option TokenCounter) where
  abbrev plain : String → String → Part
  plain name content = record { name = name; content = utf8 content; trimmable = false }

  -- The parts in the order of their priority.
  abbrev pub parts_of : TurnInput → List Fact → String → List Turn → List Part
  parts_of input facts summary turns =
      plain "system" input.system_prompt
      ∷ plain "goosehints" input.goose_hints
      ∷ plain "recipe" input.recipe_instructions
      ∷ plain "memory" (format_facts facts)
      ∷ plain "summary" (prefixed "Conversation summary:" summary)
      ∷ plain "recent_turns" (format_turns turns)
      ∷ record {
        name = "tool_output";
        content = utf8 (prefixed "Tool results:" input.tool_output);
        trimmable = true;
      }
      ∷ []

  unfoldable pub build : TurnInput → Query Assembled
  unfolding retrieve_memory retrieve_summary retrieve_turns
  build input = do
    facts ← retrieve_memory input
    summary ← retrieve_summary input
    turns ← retrieve_turns input
    pure (assemble (parts_of input facts summary turns) input.budget count)

pub write_facts : List FactInput → Query Unit
write_facts [] = pure tt
write_facts (f ∷ fs) = do write_fact f; write_facts fs

abbrev put_summary : String → String → Query Unit
put_summary session_id summary =
    if summary == "" then pure tt else do upsert_summary session_id summary; pure tt

unfoldable pub persist_turn_result : String → String → List FactInput → Query Unit
unfolding write_facts
persist_turn_result session_id summary facts = do put_summary session_id summary; write_facts facts
