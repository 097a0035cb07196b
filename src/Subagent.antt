-- ===== src/Subagent.antt =====
-- internal/tools/subagent.go: subagents, of which at most three run at once, and which leave their
-- outcome in the table of sessions.
pub mod Sessions
pub mod Loop
pub mod Limit
pub mod Rounds
mod Tests
use Prim.Native.String.{◌++◌}
use a2a_platform_go.Prelude.{
  ℕ, ◌+◌, ◌-◌, ◌≤◌, ◌<◌, ◌≡◌, String, Bool, true, false, any, Option, none, some, List, [], ◌∷◌,
  ◌==◌, leb, map, if◌then◌else◌,
}
use a2a_platform_go.Prelude.{◌++◌ as ◌⧺◌}
use a2a_platform_go.Json.{Args, get_string}
use a2a_platform_go.Llm.{ToolCall, ToolDef, ChatMessage, Outcome, done, failed}
use a2a_platform_go.Sql.{World, Result, ok, err}
use a2a_platform_go.Sql as Sql
use a2a_platform_go.Subagent.Sessions.{
  Table, SubagentSession, create, update_messages, complete, fail,
}
use a2a_platform_go.Subagent.Loop.{Env, Trace, message, run_llm_loop}

-- SubagentEngine: `running` are the sessions whose call is between its two locked sections.
pub record State : Type 0 where
  pub active_count : ℕ
  pub running : List String
  pub world : World Table
  pub trace : Trace

abbrev pub too_many : String
too_many = "too many concurrent subagents (max 3)"

module _ (sql : Sql.Env) (env : Env) where
  -- The end of a call whose session was refused: its error is stored.
  unfoldable pub refuse : String → State → State
  unfolding fail
  refuse id s = record s { world = (fail env.redact id too_many sql s.world).1 }

  unfoldable pub enter : String → State → State
  enter id s = record s { active_count = s.active_count + 1; running = id ∷ s.running }

  -- redactChatMessagesForPersistence
  abbrev redact_call : ToolCall → ToolCall
  redact_call call = record call { arguments = env.redact call.arguments }

  unfoldable pub redact_chat_message : ChatMessage → ChatMessage
  redact_chat_message m = record m {
    content = env.redact m.content;
    reasoning_content = env.redact m.reasoning_content;
    tool_calls = map redact_call m.tool_calls;
  }

  abbrev messages_json : List ChatMessage → String
  messages_json messages = env.encode (map redact_chat_message messages)

  -- What a finished loop leaves in the store; errors of the store are dropped.
  unfoldable pub store_outcome :
      String → List ChatMessage → Outcome String → World Table → World Table
  unfolding fail update_messages complete redact_chat_message
  store_outcome id messages (failed e) w = (fail env.redact id (env.redact e) sql w).1
  store_outcome id messages (done text) w =
      let v = (update_messages env.redact id (messages_json messages) sql w).1 in
      (complete env.redact id (env.redact text) sql v).1

  abbrev pub without : String → List String → List String
  without id [] = []
  without id (i ∷ is) = let rest = without id is in if i == id then is else i ∷ rest

  -- The deferred section: the count is decremented, whatever came of the loop.
  unfoldable pub leave : String → State → State
  leave id s = record s { active_count = s.active_count - 1; running = without id s.running }

  abbrev tool_line : ToolDef → String
  tool_line t = "- " ++ t.name ++ ": " ++ t.description ++ "\n"

  unfoldable pub tool_names : List ToolDef → String
  tool_names [] = ""
  tool_names (t ∷ ts) = tool_line t ++ tool_names ts

  abbrev pub context_section : String → String
  context_section context = if context == "" then "" else "\n\n【父对话提供的上下文】\n" ++ context

  unfoldable pub system_prompt : String → String → String
  unfolding tool_names
  system_prompt task context =
      "你是一个子代理（Subagent），被父代理调用来完成特定任务。\n\n你的任务："
      ++ task
      ++ "\n\n可用工具列表：\n"
      ++ tool_names env.tools
      ++ context_section context
      ++ "\n\n当需要使用工具时，通过 function call 调用。专注于完成任务，不要发散到无关主题。\n"
      ++ "如果任务无法完成，请说明原因和已尝试的步骤。"

  abbrev pub initial_messages : String → String → List ChatMessage
  initial_messages task context =
      message "system" (system_prompt task context) [] "" ∷ message "user" task [] "" ∷ []

  abbrev after_loop :
      String → List ChatMessage → State → Outcome String × Trace → Outcome String × State
  after_loop id messages s (o, t) =
      (o, record s { world = store_outcome id messages o s.world; trace = t })

  -- The part of RunExisting between the two locked sections.
  unfoldable pub work : String → String → String → State → Outcome String × State
  unfolding run_llm_loop store_outcome system_prompt
  work id task context s =
      let messages = initial_messages task context in
      after_loop id messages s (run_llm_loop env messages s.trace)

  abbrev left_after : String → Outcome String × State → Outcome String × State
  left_after id (o, s) = (o, leave id s)

  -- RunExisting, with no other call of the engine in between.
  unfoldable pub run_existing : String → String → String → State → Outcome String × State
  unfolding refuse enter leave work
  run_existing id task context s =
      if leb 3 s.active_count
      then (failed too_many, refuse id s)
      else left_after id (work id task context (enter id s))

  abbrev run_created :
      String → String → State → Result SubagentSession × World Table → Outcome String × State
  run_created task context s (err e, w) =
      (failed "failed to create subagent session", record s { world = w })
  run_created task context s (ok session, w) =
      run_existing session.id task context (record s { world = w })

  -- Run; the text of the store's error is left out.
  unfoldable pub run : String → String → String → String → State → Outcome String × State
  unfolding create run_existing
  run task context parent_context_id parent_tool_call_id s = run_created task context s (
      create env.redact parent_context_id parent_tool_call_id (env.redact task) (env.redact context)
        sql s.world)

  abbrev wrapped : Outcome String × State → Outcome String × State
  wrapped (done text, s) = (done text, s)
  wrapped (failed e, s) = (failed ("subagent execution failed: " ++ e), s)

  -- spawnAgent
  unfoldable pub spawn_agent : Args → State → Outcome String × State
  unfolding run
  spawn_agent args s =
      if get_string "task" args == ""
      then (failed "task is required for spawn_agent", s)
      else wrapped (
          run (get_string "task" args) (get_string "context" args)
            (get_string "_parent_context_id" args) (get_string "_parent_tool_call_id" args) s)

  abbrev pub runs : String → State → Bool
  runs id s = any (λ i. i == id) s.running

  -- A move of the engine while calls run side by side: one is refused, one enters, one works, or one
  -- leaves. What works between the locked sections writes to the store and the trace in any way.
  pub data Step : State → State → Type 0 where
    refused : {s : State} (id : String) → leb 3 s.active_count ≡ true → Step s (refuse id s)
    entered : {s : State} (id : String) → leb 3 s.active_count ≡ false → Step s (enter id s)
    worked :
        {s : State} (id : String) (w : World Table) (t : Trace)
        → runs id s ≡ true
        → Step s (record s { world = w; trace = t })
    finished : {s : State} (id : String) → runs id s ≡ true → Step s (leave id s)

  -- The states that moves reach from one in which no call runs.
  pub data Reachable : State → Type 0 where
    idle : {s : State} → s.active_count ≡ 0 → s.running ≡ [] → Reachable s
    moved : {s u : State} → Reachable s → Step s u → Reachable u
