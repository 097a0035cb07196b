-- ===== src/Engine.antt =====
-- internal/engine/engine.go: a hosted agent answers a message: its provider is asked in rounds, and
-- the tools that it calls are run in between. An action takes the trace of all that has happened,
-- newest first, to a result or an error and the trace after it. What the provider, a tool or a
-- subagent answers may depend on the whole trace.
pub mod Calls
pub mod Rounds
pub mod Quiet
pub mod Kept
pub mod Pairing
pub mod Bounds
pub mod Stored
mod Tests
use Prim.Native.String.{◌++◌}
use a2a_platform_go.Prelude.{
  ℕ, String, Bool, Option, none, some, List, [], ◌∷◌, ◌==◌, leb, if◌then◌else◌,
}
use a2a_platform_go.Prelude.Text.{contains, trim_space, byte_length, cut}
use a2a_platform_go.Json.{Args}
use a2a_platform_go.Llm.{ToolCall, ToolDef, ChatRequest, Outcome, StreamEvent, Message}

-- config.BuiltinAgent, as far as the engine reads it.
pub record Config : Type 0 where
  pub name : String
  pub model : String
  pub system_prompt : String
  pub max_tokens : ℕ
  pub max_tool_rounds : ℕ
  pub max_turns : ℕ
  pub max_tool_result_size : ℕ

pub record ToolExecutionContext : Type 0 where
  pub source_agent : String
  pub root_context_id : String
  pub parent_task_id : String
  pub parent_tool_call_id : String
  pub group_id : String

-- The events that the client of the stream is sent: writeSSE.
pub data Sse : Type 0 where
  working : Sse
  completed : String → Sse
  task_failed : String → Sse
  text_delta thinking_delta : String → Sse
  call_start : ToolCall → Sse
  call_end : ToolCall → Sse
  result : ToolCall → String → Sse
  progress : ToolCall → ℕ → Sse
  subagent_started subagent_completed subagent_error : String → String → String → Sse

pub data Effect : Type 0 where
  asked : ChatRequest → Effect
  ran : ToolExecutionContext → ToolCall → Effect
  told : Sse → Effect
  saved : Message → Effect
  recorded : String → Effect
  session_created : String → String → Effect
  subagent_run : String → String → Effect

abbrev pub Trace : Type 0
Trace = List Effect

-- How the wait for a tool ends: after some ticks of the progress timer the first of the three.
pub data Wait : Type 0 where
  answers : Outcome String → Wait
  canceled : String → Wait
  timed_out : Wait

pub record Race : Type 0 where
  pub ticks : List ℕ
  pub ends : Wait

-- tools.SubagentEngine: Store().Create and RunExisting.
pub record Subagents : Type 0 where
  pub create : Trace → String → String → Option String
  pub run_existing : Trace → String → String → String → Outcome String

-- What the engine calls: the provider; the registered tools and what comes of running one; the order
-- in which concurrent calls happen to run; encoding/json, fmt's %q and decimals; and the redaction
-- by regular expressions, of a text and of a trace's data. `saves` says of each message whether the
-- caller passes SaveMessage and this stores it, `records` whether the caller passes RecordTrace.
pub record Env : Type 0 where
  pub chat_stream : Trace → ChatRequest → Outcome (List StreamEvent)
  pub tools : Trace → List ToolDef
  pub race : Trace → ToolExecutionContext → ToolCall → Race
  pub order : List ToolCall → List ToolCall
  pub subagents : Option Subagents
  pub decode : String → Args
  pub trace_data : ToolCall → String
  pub encode : List ToolCall → String
  pub quoted : String → String
  pub decimal : ℕ → String
  pub redact : String → String
  pub saves : Message → Trace → Bool
  pub records : Bool

-- The identifiers that a request comes with.
pub record Place : Type 0 where
  pub task_id : String
  pub context_id : String
  pub root_context_id : String
  pub group_id : String

abbrev pub Run : Type 0 → Type 0
Run A = Trace → Outcome A × Trace

-- deps.SaveMessage, whose error the engine drops.
unfoldable pub save : Env → Message → Trace → Trace
save env m t = if env.saves m t then saved m ∷ t else t

unfoldable pub truncate : ℕ → String → String
truncate max s = if leb (byte_length s) max then s else cut max s ++ "..."

-- withA2AToolGuidance
abbrev pub guidance : String
guidance =
    "A2A collaboration tool policy:\n"
    ++ "- Treat groups as the boundary for discovery and collaboration.\n"
    ++ "- Before looking for other agents, call list_groups to see which groups you can use.\n"
    ++ "- To discover collaborators, call list_agents with a selected group_id from list_groups, "
    ++ "unless the current group chat already provides that group context. Simple-mode agents in "
    ++ "default-p2p may omit group_id for P2P discovery.\n"
    ++ "- When sending to another agent or reading agent info, stay within the same selected "
    ++ "group_id. Simple-mode agents may omit group_id only for default-p2p P2P calls. Do not assume "
    ++ "global agent visibility."

unfoldable pub with_a2a_tool_guidance : String → String
with_a2a_tool_guidance prompt =
    if contains prompt "A2A collaboration tool policy:"
    then prompt
    else if trim_space prompt == ""
    then guidance
    else prompt ++ "\n\n" ++ guidance
