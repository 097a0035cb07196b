-- ===== src/Llm/Tests.antt =====
-- A stored conversation with one call of a tool, and a tool's message without an identifier.
use a2a_platform_go.Prelude.{String, ◌≡◌, refl, Option, some, List, [], ◌∷◌}
use a2a_platform_go.Llm.{ToolCall, Message, build_chat_history, chat_message}
use a2a_platform_go.Llm.Paired.{awaits}

abbrev call : ToolCall
call = record { id = "1"; name = "read_file"; arguments = "" }

abbrev parse : String → Option (List ToolCall)
parse s = some (call ∷ [])

abbrev stored : String → String → String → Message
stored role calls id = record {
  role = role;
  content = "";
  reasoning_content = "";
  tool_calls = calls;
  tool_call_id = id;
}

answered :
    awaits (some []) (
      build_chat_history parse (
        stored "user" "" ""
        ∷ stored "agent" "[1]" ""
        ∷ stored "tool" "" ""
        ∷ stored "tool" "" "1"
        ∷ []))
    ≡ some []
unfolding awaits build_chat_history chat_message
answered = refl
