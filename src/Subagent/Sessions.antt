-- ===== src/Subagent/Sessions.antt =====
-- SubagentStore of internal/svc/context.go: the table subagent_sessions.
use a2a_platform_go.Prelude.{
  ℕ, String, Bool, Option, none, some, List, [], ◌∷◌, ◌++◌, find, update, if◌then◌else◌, is_some,
}
use a2a_platform_go.Sql.{
  Env, World, Sql, Result, ok, err, duplicate_key, pure, asks, statement, query, exec, draw, ◌>>=◌,
  ◌>>◌,
}
use a2a_platform_go.Group.{same_text}

-- A NULL text is read as an empty one.
pub record SubagentSession : Type 0 where
  pub id : String
  pub parent_context_id : String
  pub parent_tool_call_id : String
  pub task : String
  pub context : String
  pub status : String
  pub messages : String
  pub result : String
  pub error : String
  pub created_at : ℕ
  pub completed_at : Option ℕ

abbrev pub Table : Type 0
Table = List SubagentSession

abbrev pub has_id : Env → String → SubagentSession → Bool
has_id env id s = same_text env id s.id

abbrev new_session : String → String → String → String → String → ℕ → SubagentSession
new_session id parent_context_id parent_tool_call_id task context now = record {
  id = id;
  parent_context_id = parent_context_id;
  parent_tool_call_id = parent_tool_call_id;
  task = task;
  context = context;
  status = "running";
  messages = "";
  result = "";
  error = "";
  created_at = now;
  completed_at = none;
}

abbrev insert_row : SubagentSession → Env → World Table → Result (Unit {0}) × Table
insert_row s env w =
    if is_some (find (has_id env s.id) w.tables)
    then (err duplicate_key, w.tables)
    else (ok tt, w.tables ++ s ∷ [])

module _ (redact : String → String) where
  unfoldable pub create : String → String → String → String → Sql Table SubagentSession
  unfolding draw asks statement ◌>>=◌ find
  create parent_context_id parent_tool_call_id task context = do
    n ← draw
    s ← asks (λ env w.
        new_session (env.identifier n) parent_context_id parent_tool_call_id (redact task)
          (redact context) w.now)
    statement (insert_row s)
    pure s

  unfoldable pub update_messages : String → String → Sql Table (Unit {0})
  unfolding exec update
  update_messages id messages =
      exec (λ env w. update (has_id env id) (λ s. record s { messages = redact messages }) w.tables)

  unfoldable pub complete : String → String → Sql Table (Unit {0})
  unfolding exec update
  complete id text = exec (λ env w.
      update (has_id env id)
        (λ s. record s { status = "completed"; result = redact text; completed_at = some w.now })
        w.tables)

  unfoldable pub fail : String → String → Sql Table (Unit {0})
  unfolding exec update
  fail id text = exec (λ env w.
      update (has_id env id)
        (λ s. record s { status = "failed"; error = redact text; completed_at = some w.now })
        w.tables)

unfoldable pub update_status : String → String → Sql Table (Unit {0})
unfolding exec update
update_status id status = exec (λ env w.
    update (has_id env id) (λ s. record s { status = status; completed_at = some w.now }) w.tables)

unfoldable pub get : String → Sql Table (Option SubagentSession)
unfolding query find
get id = query (λ env w. ok (find (has_id env id) w.tables))
