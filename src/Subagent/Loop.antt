-- ===== src/Subagent/Loop.antt =====
-- internal/tools/subagent.go: runLLMLoop, the rounds of a subagent with its provider and its tools.
-- The trace of what it does is kept newest first.
use Prim.Native.String.{◌++◌}
use a2a_platform_go.Prelude.{
  ℕ, zero, suc, String, Option, none, some, List, [], ◌∷◌, ◌==◌, if◌then◌else◌,
}
use a2a_platform_go.Prelude.{◌++◌ as ◌⧺◌}
use a2a_platform_go.Json.{Args}
use a2a_platform_go.Llm.{
  ToolCall, ToolDef, ChatMessage, ChatRequest, Outcome, done, failed, StreamEvent, text, reasoning,
  tool_call, error, quiet, Heard, nothing, add_text, add_call,
}

pub data Effect : Type 0 where
  asked : ChatRequest → Effect
  executed : String → Args → Effect

abbrev pub Trace : Type 0
Trace = List Effect

-- The provider, the built-in tools and what comes of running one, encoding/json on a call's
-- arguments and on a conversation, the redaction of a text, and the agent's part of a request.
pub record Env : Type 0 where
  pub chat_stream : Trace → ChatRequest → Outcome (List StreamEvent)
  pub tools : List ToolDef
  pub execute_tool : Trace → String → Args → Outcome String
  pub decode : String → Option Args
  pub encode : List ChatMessage → String
  pub redact : String → String
  pub model : String
  pub system_prompt : String
  pub max_tokens : ℕ

abbrev pub Run : Type 0 → Type 0
Run A = Trace → Outcome A × Trace

abbrev pub max_subagent_rounds : ℕ
max_subagent_rounds = 10

unfoldable pub hear_all : List StreamEvent → Heard → Outcome Heard
hear_all [] h = done h
hear_all (text s ∷ events) h = hear_all events (add_text s h)
hear_all (reasoning s ∷ events) h = hear_all events h
hear_all (tool_call call ∷ events) h = hear_all events (add_call call h)
hear_all (error e ∷ events) h = failed e
hear_all (quiet ∷ events) h = hear_all events h

abbrev pub message : String → String → List ToolCall → String → ChatMessage
message role content calls id = record {
  role = role;
  content = content;
  reasoning_content = "";
  tool_calls = calls;
  tool_call_id = id;
}

module _ (env : Env) where
  abbrev pub request : List ChatMessage → ChatRequest
  request messages = record {
    model = env.model;
    system_prompt = env.system_prompt;
    messages = messages;
    tools = env.tools;
    max_tokens = env.max_tokens;
  }

  abbrev or_empty : Option Args → Args
  or_empty none = []
  or_empty (some args) = args

  unfoldable pub arguments_of : ToolCall → Args
  arguments_of call = if call.arguments == "" then [] else or_empty (env.decode call.arguments)

  abbrev as_text : Outcome String → String
  as_text (done s) = s
  as_text (failed e) = "Error: " ++ e

  abbrev pub answer_to : ToolCall → Trace → ChatMessage
  answer_to call t =
      message "tool" (as_text (env.execute_tool t call.name (arguments_of call))) [] call.id

  -- The calls of a message, one after the other.
  unfoldable pub run_calls : List ToolCall → List ChatMessage → Trace → List ChatMessage × Trace
  unfolding arguments_of
  run_calls [] messages t = (messages, t)
  run_calls (call ∷ calls) messages t =
      run_calls calls (messages ⧺ answer_to call t ∷ [])
        (executed call.name (arguments_of call) ∷ t)

  abbrev pub heard_in : Outcome (List StreamEvent) → Outcome Heard
  heard_in (failed e) = failed ("LLM call failed: " ++ e)
  heard_in (done events) = hear_all events nothing

  abbrev pub go_on :
      (List ChatMessage → Run String) → List ChatMessage × Trace → Outcome String × Trace
  go_on round (messages, t) = round messages t

  abbrev pub conclude :
      (List ChatMessage → Run String) → List ChatMessage → List ToolCall → Heard → Run String
  conclude round messages [] h t = (done h.text, t)
  conclude round messages (call ∷ calls) h t =
      go_on round
        (run_calls (call ∷ calls) (messages ⧺ message "assistant" h.text (call ∷ calls) "" ∷ []) t)

  abbrev pub decide :
      (List ChatMessage → Run String) → List ChatMessage → Outcome Heard → Run String
  decide round messages (failed e) t = (failed e, t)
  decide round messages (done h) t = conclude round messages h.tool_calls h t

  -- The rounds that are left.
  unfoldable pub rounds : ℕ → List ChatMessage → Run String
  unfolding hear_all run_calls
  rounds zero messages t = (failed "max subagent rounds (10) exceeded", t)
  rounds (suc left) messages t =
      decide (rounds left) messages (heard_in (env.chat_stream t (request messages)))
        (asked (request messages) ∷ t)

  unfoldable pub run_llm_loop : List ChatMessage → Run String
  unfolding rounds
  run_llm_loop messages t = rounds max_subagent_rounds messages t
