-- ===== src/Engine/Calls.antt =====
-- internal/engine/engine.go: the tools that a message of the model calls, run and answered.
use Prim.Native.String.{◌++◌}
use a2a_platform_go.Prelude.{
  ℕ, ◌-◌, String, Bool, false, not, ◌&&◌, Option, none, some, List, [], ◌∷◌, ◌==◌, ◌=?◌, ltb,
  if◌then◌else◌, select, find,
}
use a2a_platform_go.Prelude.{◌++◌ as ◌⧺◌}
use a2a_platform_go.Prelude.Text.{contains, byte_length, cut}
use a2a_platform_go.Json.{get_string}
use a2a_platform_go.Llm.{ToolCall, ToolDef, ChatMessage, Message, Outcome, done, failed}
use a2a_platform_go.Engine.{
  Config, ToolExecutionContext, call_start, call_end, result, progress, subagent_started,
  subagent_completed, subagent_error, ran, told, recorded, session_created, subagent_run, Trace,
  Wait, answers, canceled, timed_out, Subagents, Env, Place, Run, save, truncate,
}

-- The text that stands for a result, an error included.
abbrev pub as_text : Outcome String → String
as_text (done text) = text
as_text (failed e) = "Error: " ++ e

-- roResults, by the call's identifier: the entry written last comes first.
abbrev pub Results : Type 0
Results = List (String × String)

module _ (env : Env) (cfg : Config) (place : Place) where
  abbrev pub context_of : ToolCall → ToolExecutionContext
  context_of call = record {
    source_agent = cfg.name;
    root_context_id = place.root_context_id;
    parent_task_id = place.task_id;
    parent_tool_call_id = call.id;
    group_id = place.group_id;
  }

  abbrev pub tell_ticks : (Trace → ℕ → Trace) → List ℕ → Trace → Trace
  tell_ticks tick [] t = t
  tell_ticks tick (n ∷ ns) t = tell_ticks tick ns (tick t n)

  abbrev wait_result : ToolCall → Wait → Outcome String
  wait_result call (answers o) = o
  wait_result call (canceled reason) =
      failed ("tool " ++ env.quoted call.name ++ " canceled while waiting for result: " ++ reason)
  wait_result call timed_out = failed ("tool " ++ env.quoted call.name ++ " timed out after 2m0s")

  -- callToolWithTimeout; `tick` is what onProgress does.
  unfoldable pub call_tool_with_timeout : (Trace → ℕ → Trace) → ToolCall → Run String
  call_tool_with_timeout tick call t =
      let race = env.race t (context_of call) call in
      (wait_result call race.ends, tell_ticks tick race.ticks (ran (context_of call) call ∷ t))

  abbrev pub redacted : ToolCall → ToolCall
  redacted call = record call { arguments = env.redact call.arguments }

  abbrev pub emit_progress : ToolCall → Trace → ℕ → Trace
  emit_progress call t elapsed = told (progress (redacted call) elapsed) ∷ t

  abbrev pub no_progress : Trace → ℕ → Trace
  no_progress t elapsed = t

  -- isToolNotFoundError
  unfoldable pub is_tool_not_found_error : String → String → Bool
  is_tool_not_found_error name e = contains e ("tool " ++ env.quoted name ++ " not found")

  -- A tool that is not there ends the run; every other error is an answer for the model.
  abbrev pub settle : ToolCall → Outcome String → Outcome String
  settle call (done text) = done text
  settle call (failed e) =
      if is_tool_not_found_error call.name e then failed e else done ("Error: " ++ e)

  unfoldable pub run_serially : ToolCall → Run String
  unfolding call_tool_with_timeout
  run_serially call t =
      let (o, u) = call_tool_with_timeout (emit_progress call) call t in (settle call o, u)

  abbrev pub subagent_ends : ToolCall → String → Outcome String → Trace → Outcome String × Trace
  subagent_ends call id (done text) t =
      (done text, told (subagent_completed id (truncate 500 (env.redact text)) call.id) ∷ t)
  subagent_ends call id (failed e) t =
      (done ("Error: " ++ e), told (subagent_error id (env.redact e) call.id) ∷ t)

  -- spawn_agent, handled in place where there is a subagent engine
  abbrev pub spawned : Subagents → ToolCall → String → String → Option String → Run String
  spawned subagents call task context none t = run_serially call t
  spawned subagents call task context (some id) t =
      let u = told (subagent_started id (env.redact task) call.id) ∷ t in
      subagent_ends call id (subagents.run_existing u id task context) (subagent_run id task ∷ u)

  unfoldable pub spawn_agent : Subagents → ToolCall → Run String
  unfolding run_serially
  spawn_agent subagents call t =
      let args = env.decode call.arguments in
      let task = get_string "task" args in
      let context = get_string "context" args in
      let u = session_created (env.redact task) (env.redact context) ∷ t in
      spawned subagents call task context
        (subagents.create t (env.redact task) (env.redact context)) u

  -- toolRO: of two tools of one name the later counts.
  unfoldable pub latest : List ToolDef → String → Bool → Bool
  latest [] name read_only = read_only
  latest (tool ∷ tools) name read_only =
      latest tools name (if tool.name == name then tool.is_read_only else read_only)

  abbrev pub runs_early : List ToolDef → ToolCall → Bool
  runs_early tools call = not (call.name == "spawn_agent") && latest tools call.name false

  unfoldable pub pre_execute_all : List ToolCall → Results → Trace → Results × Trace
  unfolding call_tool_with_timeout
  pre_execute_all [] early t = (early, t)
  pre_execute_all (call ∷ calls) early t =
      let (o, u) = call_tool_with_timeout no_progress call t in
      pre_execute_all calls ((call.id, as_text o) ∷ early) u

  -- The read-only tools, run side by side.
  unfoldable pub pre_execute : List ToolDef → List ToolCall → Trace → Results × Trace
  unfolding pre_execute_all latest select
  pre_execute tools calls t = pre_execute_all (env.order (select (runs_early tools) calls)) [] t

  abbrev pub found_or_run : ToolCall → Option (String × String) → Run String
  found_or_run call none t = run_serially call t
  found_or_run call (some early) t = (done early.1, t)

  unfoldable pub find_or_run : Results → ToolCall → Run String
  unfolding find
  find_or_run early call t = found_or_run call (find (λ entry. entry.0 == call.id) early) t

  abbrev pub choose : Option Subagents → Results → ToolCall → Run String
  choose none early call t = find_or_run early call t
  choose (some subagents) early call t =
      if call.name == "spawn_agent" then spawn_agent subagents call t else find_or_run early call t

  -- How one call comes to its result.
  unfoldable pub result_of : Results → ToolCall → Run String
  result_of early call t = choose env.subagents early call t

  abbrev pub max_result_size : ℕ
  max_result_size = if cfg.max_tool_result_size =? 0 then 10000 else cfg.max_tool_result_size

  -- The text that the model is given of a result.
  unfoldable pub truncated_result : String → String
  truncated_result text =
      if ltb max_result_size (byte_length text)
      then cut max_result_size text
        ++ "\n... (truncated, "
        ++ env.decimal (byte_length text - max_result_size)
        ++ " chars omitted)"
      else text

  abbrev pub record_trace : ToolCall → Trace → Trace
  record_trace call t = if env.records then recorded (env.trace_data call) ∷ t else t

  abbrev pub tool_message : ToolCall → String → ChatMessage
  tool_message call text = record {
    role = "tool";
    content = text;
    reasoning_content = "";
    tool_calls = [];
    tool_call_id = call.id;
  }

  abbrev pub tool_row : ToolCall → String → Message
  tool_row call text = record {
    role = "tool";
    content = env.redact text;
    reasoning_content = "";
    tool_calls = "";
    tool_call_id = call.id;
  }

  abbrev pub starts : ToolCall → Trace → Trace
  starts call t = record_trace call (told (call_start (redacted call)) ∷ t)

  -- After a result: it is shown, given to the model and stored.
  abbrev pub finishes : ToolCall → String → Trace → Trace
  finishes call text t = save env (tool_row call text) (
      told (result (redacted call) (truncate 2000 (env.redact text)))
      ∷ told (call_end (redacted call))
      ∷ t)

  abbrev pub goes_on :
      ToolCall
      → (List ChatMessage → Run (List ChatMessage))
      → List ChatMessage
      → Outcome String × Trace
      → Outcome (List ChatMessage) × Trace
  goes_on call others messages (failed e, t) = (failed e, t)
  goes_on call others messages (done text, t) =
      others (messages ⧺ tool_message call (truncated_result text) ∷ [])
        (finishes call (truncated_result text) t)

  -- The calls one after the other, with the messages of the conversation.
  unfoldable pub process_calls : Results → List ToolCall → List ChatMessage → Run (List ChatMessage)
  unfolding result_of truncated_result save
  process_calls early [] messages t = (done messages, t)
  process_calls early (call ∷ calls) messages t =
      goes_on call (process_calls early calls) messages (result_of early call (starts call t))
