-- ===== src/Llm.antt =====
-- internal/llm/types.go: what the platform and a provider of a language model exchange; and the
-- stored messages of internal/model/types.go.
mod Tests
pub mod Paired
use Prim.Native.String.{◌++◌}
use a2a_platform_go.Prelude.{
  ℕ, String, Bool, Option, none, some, List, [], ◌∷◌, ◌==◌, if◌then◌else◌,
}
use a2a_platform_go.Prelude.{◌++◌ as ◌⧺◌}

pub record ToolCall : Type 0 where
  pub id : String
  pub name : String
  pub arguments : String

pub record ToolDef : Type 0 where
  pub name : String
  pub description : String
  pub is_read_only : Bool

pub record ChatMessage : Type 0 where
  pub role : String
  pub content : String
  pub reasoning_content : String
  pub tool_calls : List ToolCall
  pub tool_call_id : String

pub record ChatRequest : Type 0 where
  pub model : String
  pub system_prompt : String
  pub messages : List ChatMessage
  pub tools : List ToolDef
  pub max_tokens : ℕ

-- A call of the platform's code that may return an error, by its text.
pub data Outcome (A : Type 0) : Type 0 where
  done : A → Outcome A
  failed : String → Outcome A

-- `quiet` is every type of event that the platform passes over.
pub data StreamEvent : Type 0 where
  text reasoning : String → StreamEvent
  tool_call : Option ToolCall → StreamEvent
  error : String → StreamEvent
  quiet : StreamEvent

-- What has been read of a stream.
pub record Heard : Type 0 where
  pub text : String
  pub reasoning : String
  pub tool_calls : List ToolCall

abbrev pub nothing : Heard
nothing = record { text = ""; reasoning = ""; tool_calls = [] }

abbrev pub add_text : String → Heard → Heard
add_text s h = record h { text = h.text ++ s }

abbrev pub add_reasoning : String → Heard → Heard
add_reasoning s h = record h { reasoning = h.reasoning ++ s }

abbrev pub add_call : Option ToolCall → Heard → Heard
add_call none h = h
add_call (some call) h = record h { tool_calls = h.tool_calls ⧺ call ∷ [] }

-- The columns of a stored message that the platform reads back; an empty text stands for NULL too.
pub record Message : Type 0 where
  pub role : String
  pub content : String
  pub reasoning_content : String
  pub tool_calls : String
  pub tool_call_id : String

abbrev pub or_none : Option (List ToolCall) → List ToolCall
or_none none = []
or_none (some calls) = calls

-- One message of buildChatHistory; `parse` is json.Unmarshal into a list of tool calls.
unfoldable pub chat_message : (String → Option (List ToolCall)) → Message → ChatMessage
chat_message parse m = record {
  role = if m.role == "agent" then "assistant" else m.role;
  content = m.content;
  reasoning_content = m.reasoning_content;
  tool_calls = if m.tool_calls == "" then [] else or_none (parse m.tool_calls);
  tool_call_id = m.tool_call_id;
}

-- A tool's message that does not say which call it answers is left out.
abbrev pub keep_message : ChatMessage → List ChatMessage → List ChatMessage
keep_message m history =
    if m.role == "tool"
    then (if m.tool_call_id == "" then history else m ∷ history)
    else m ∷ history

unfoldable pub build_chat_history :
    (String → Option (List ToolCall)) → List Message → List ChatMessage
unfolding chat_message
build_chat_history parse [] = []
build_chat_history parse (m ∷ messages) =
    keep_message (chat_message parse m) (build_chat_history parse messages)
