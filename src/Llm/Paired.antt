-- ===== src/Llm/Paired.antt =====
-- What a provider demands of a conversation: the calls of tools in a message are answered by the
-- messages that follow it, one for each call, in their order.
use a2a_platform_go.Prelude.{
  String, ◌≡◌, refl, Option, none, some, List, [], ◌∷◌, ◌++◌, ◌==◌, map, if◌then◌else◌,
}
use a2a_platform_go.Llm.{ToolCall, ChatMessage}

abbrev pub answer : List String → String → Option (List String)
answer [] id = none
answer (i ∷ ids) id = if i == id then some ids else none

abbrev pub ask : List String → List ToolCall → Option (List String)
ask [] calls = some (map (λ (c : ToolCall). c.id) calls)
ask (i ∷ ids) calls = none

abbrev pub advance : Option (List String) → ChatMessage → Option (List String)
advance none m = none
advance (some ids) m = if m.role == "tool" then answer ids m.tool_call_id else ask ids m.tool_calls

-- The calls that still await an answer after some messages; `none` once the order is broken.
unfoldable pub awaits : Option (List String) → List ChatMessage → Option (List String)
awaits ids [] = ids
awaits ids (m ∷ messages) = awaits (advance ids m) messages

pub awaits-append :
    (ids : Option (List String)) (ms ns : List ChatMessage)
    → awaits ids (ms ++ ns) ≡ awaits (awaits ids ms) ns
unfolding awaits
awaits-append ids [] ns = refl
awaits-append ids (m ∷ ms) ns = awaits-append (advance ids m) ms ns
