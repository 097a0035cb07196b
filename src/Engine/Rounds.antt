-- ===== src/Engine/Rounds.antt =====
-- internal/engine/engine.go: the rounds of a run, and the request that starts it.
use Prim.Native.String.{◌++◌}
use a2a_platform_go.Prelude.{
  ℕ, zero, suc, ◌+◌, String, Option, none, some, List, [], ◌∷◌, ◌=?◌, ltb, if◌then◌else◌, map,
}
use a2a_platform_go.Prelude.{◌++◌ as ◌⧺◌}
use a2a_platform_go.Llm.{
  ToolCall, ToolDef, ChatMessage, ChatRequest, Message, Outcome, done, failed, StreamEvent, text,
  reasoning, tool_call, error, quiet, Heard, nothing, add_text, add_reasoning, add_call,
  build_chat_history,
}
use a2a_platform_go.Engine.{
  Config, working, completed, task_failed, text_delta, thinking_delta, asked, told, Trace, Env,
  Place, Run, save, with_a2a_tool_guidance,
}
use a2a_platform_go.Engine.Calls.{process_calls, pre_execute}

-- The loop over the events of a stream.
unfoldable pub listen : List StreamEvent → Heard → Run Heard
listen [] h t = (done h, t)
listen (text s ∷ events) h t = listen events (add_text s h) (told (text_delta s) ∷ t)
listen (reasoning s ∷ events) h t = listen events (add_reasoning s h) (told (thinking_delta s) ∷ t)
listen (tool_call call ∷ events) h t = listen events (add_call call h) t
listen (error e ∷ events) h t = (failed e, t)
listen (quiet ∷ events) h t = listen events h t

-- What follows where an answer calls tools.
abbrev pub Next : Type 0
Next = List ToolDef → Heard → List ChatMessage → Run String

module _ (env : Env) (cfg : Config) (place : Place) where
  abbrev pub max_rounds : ℕ
  max_rounds = if cfg.max_tool_rounds =? 0 then 10 else cfg.max_tool_rounds

  abbrev pub max_turns : ℕ
  max_turns = if cfg.max_turns =? 0 then 20 else cfg.max_turns

  abbrev pub request : List ChatMessage → List ToolDef → ChatRequest
  request messages tools = record {
    model = cfg.model;
    system_prompt = with_a2a_tool_guidance cfg.system_prompt;
    messages = messages;
    tools = tools;
    max_tokens = cfg.max_tokens;
  }

  abbrev pub heard_in : Outcome (List StreamEvent) → Run Heard
  heard_in (failed e) t = (failed ("LLM call failed: " ++ e), t)
  heard_in (done events) t = listen events nothing t

  -- One call of the provider, and what is heard of it.
  unfoldable pub hear : List ChatMessage → Run Heard
  unfolding listen
  hear messages t =
      let ask = request messages (env.tools t) in heard_in (env.chat_stream t ask) (asked ask ∷ t)

  abbrev pub assistant_message : Heard → ChatMessage
  assistant_message h = record {
    role = "assistant";
    content = h.text;
    reasoning_content = h.reasoning;
    tool_calls = h.tool_calls;
    tool_call_id = "";
  }

  -- redactToolCallsForPersistence
  unfoldable pub redact_tool_calls : List ToolCall → List ToolCall
  redact_tool_calls calls =
      map (λ (c : ToolCall). record c { arguments = env.redact c.arguments }) calls

  -- What is stored of an answer: with `calls` as text, or empty where there are none.
  abbrev pub agent_row : Heard → String → Message
  agent_row h calls = record {
    role = "agent";
    content = h.text;
    reasoning_content = h.reasoning;
    tool_calls = calls;
    tool_call_id = "";
  }

  -- The tools that an answer calls: the answer is stored, the calls are run.
  unfoldable pub act : List ToolDef → Heard → List ChatMessage → Run (List ChatMessage)
  unfolding save redact_tool_calls pre_execute process_calls
  act tools h messages t =
      let stored = save env (agent_row h (env.encode (redact_tool_calls h.tool_calls))) t in
      let (early, u) = pre_execute env cfg place tools h.tool_calls stored in
      process_calls env cfg place early h.tool_calls (messages ⧺ assistant_message h ∷ []) u

  abbrev pub stop : Next
  stop tools h messages t =
      (failed ("max tool rounds (" ++ env.decimal max_rounds ++ ") exceeded"), t)

  abbrev pub resume :
      (List ChatMessage → Run String) → Outcome (List ChatMessage) × Trace → Outcome String × Trace
  resume round (failed e, t) = (failed e, t)
  resume round (done messages, t) = round messages t

  abbrev pub act_then : (List ChatMessage → Run String) → Next
  act_then round tools h messages t = resume round (act tools h messages t)

  abbrev pub conclude : Next → List ToolDef → List ChatMessage → List ToolCall → Heard → Run String
  conclude next tools messages [] h t = (done h.text, save env (agent_row h "") t)
  conclude next tools messages (call ∷ calls) h t = next tools h messages t

  abbrev pub decide :
      Next → List ToolDef → List ChatMessage → Outcome Heard × Trace → Outcome String × Trace
  decide next tools messages (failed e, t) = (failed e, t)
  decide next tools messages (done h, t) = conclude next tools messages h.tool_calls h t

  -- A round: the turn is counted, the provider is asked, and `next` follows where it calls tools.
  unfoldable pub one_round : Next → ℕ → List ChatMessage → Run String
  unfolding hear
  one_round next turn messages t =
      if ltb max_turns (turn + 1)
      then (failed ("max turns (" ++ env.decimal max_turns ++ ") exceeded"), t)
      else decide next (env.tools t) messages (hear messages t)

  -- The rounds that are left after this one, and the turns before it.
  unfoldable pub rounds : ℕ → ℕ → List ChatMessage → Run String
  unfolding one_round act
  rounds zero turn messages t = one_round stop turn messages t
  rounds (suc left) turn messages t = one_round (act_then (rounds left (turn + 1))) turn messages t

  unfoldable pub run_loop : List ChatMessage → Run String
  unfolding rounds
  run_loop messages t = rounds max_rounds 0 messages t

  abbrev pub user_message : String → ChatMessage
  user_message user_text = record {
    role = "user";
    content = user_text;
    reasoning_content = "";
    tool_calls = [];
    tool_call_id = "";
  }

  abbrev pub finish : Outcome String × Trace → Trace
  finish (failed e, t) = told (task_failed e) ∷ t
  finish (done answer, t) = told (completed answer) ∷ t

  -- HandleRequest for an agent that is there, on a connection that streams; `loaded` is what
  -- LoadHistory finds, where there is a context and no error.
  unfoldable pub handle_request :
      (String → Option (List ToolCall)) → Option (List Message) → String → Trace → Trace
  unfolding run_loop build_chat_history
  handle_request parse none user_text t =
      finish (run_loop (user_message user_text ∷ []) (told working ∷ t))
  handle_request parse (some loaded) user_text t =
      finish (
        run_loop (build_chat_history parse loaded ⧺ user_message user_text ∷ []) (told working ∷ t))
