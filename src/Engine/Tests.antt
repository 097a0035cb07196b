-- ===== src/Engine/Tests.antt =====
-- An agent whose model reads a file and then replies; and one whose model calls a tool that is not
-- there, which leaves a call without an answer in the store.
use Prim.Native.String.{◌++◌}
use Prim.Native.Char.{Char, code}
use a2a_platform_go.Prelude.{
  Bool-cases, inl, inr, eq_iff, ◌+◌, ◌≤◌, min, suc, String, ◌≡◌, refl, ◌∙◌, ap, ◌=?◌, true, false,
  Option, none, some, List, [], ◌∷◌, ◌==◌, if◌then◌else◌, All, all,
}
use a2a_platform_go.Prelude.Text.{contains}
use a2a_platform_go.Llm.{
  ToolCall, ToolDef, ChatMessage, Outcome, done, failed, StreamEvent, text, tool_call, quiet,
  build_chat_history,
}
use a2a_platform_go.Llm.Paired.{awaits}
use a2a_platform_go.Engine.{Config, Trace, answers, Env, Place}
use a2a_platform_go.Engine.Calls.{find_or_run, run_serially, is_tool_not_found_error}
use a2a_platform_go.Engine.Rounds.{run_loop, handle_request, max_rounds, max_turns}
use a2a_platform_go.Engine.Bounds.{requests, run_loop_le}
use a2a_platform_go.Engine.Pairing.{IsAnswered, handle_request-IsAnswered}
use a2a_platform_go.Engine.Stored.{saved_rows, left_open, run_loop-left_open}

abbrev tool : String → ToolDef
tool name = record { name = name; description = ""; is_read_only = true }

abbrev call_of : String → ToolCall
call_of name = record { id = "1"; name = name; arguments = "{}" }

-- The model calls the tool until an answer of a tool stands in the conversation.
abbrev reply_to : String → List ChatMessage → List StreamEvent
reply_to name [] = text "Let me see." ∷ tool_call (some (call_of name)) ∷ quiet ∷ []
reply_to name (m ∷ messages) =
    if m.role == "tool" then text "It says hi." ∷ [] else reply_to name messages

abbrev found : String → Outcome String
found name = if name == "read_file" then done "hi" else failed ("tool " ++ name ++ " not found")

-- A code for lists of calls: each character behind a "c", each text ended by an "e".
abbrev enc_text : String → String → String
enc_text String.[] rest = String.◌∷◌ "e" rest
enc_text (String.◌∷◌ c s) rest = String.◌∷◌ "c" (String.◌∷◌ c (enc_text s rest))

abbrev enc_calls : List ToolCall → String
enc_calls [] = ""
enc_calls (call ∷ calls) =
    enc_text call.id (enc_text call.name (enc_text call.arguments (enc_calls calls)))

abbrev encode : List ToolCall → String
encode calls = String.◌∷◌ "[" (enc_calls calls)

abbrev push : Char → List String → List String
push c [] = []
push c (s ∷ ss) = String.◌∷◌ c s ∷ ss

abbrev texts : String → List String
texts String.[] = []
texts (String.◌∷◌ m String.[]) = "" ∷ []
texts (String.◌∷◌ m (String.◌∷◌ c rest)) =
    let ended = "" ∷ texts (String.◌∷◌ c rest) in
    let longer = push c (texts rest) in if code m =? 101 then ended else longer

abbrev group : List String → List ToolCall
group (id ∷ name ∷ arguments ∷ rest) =
    record { id = id; name = name; arguments = arguments } ∷ group rest
group _ = []

abbrev parse : String → Option (List ToolCall)
parse String.[] = none
parse (String.◌∷◌ c s) = some (group (texts s))

texts-enc_text : (s rest : String) → texts (enc_text s rest) ≡ s ∷ texts rest
texts-enc_text String.[] String.[] = refl
texts-enc_text String.[] (String.◌∷◌ c rest) = refl
texts-enc_text (String.◌∷◌ c s) rest = ap (push c) (texts-enc_text s rest)

group-texts : (calls : List ToolCall) → group (texts (enc_calls calls)) ≡ calls
group-texts [] = refl
group-texts (call ∷ calls) =
    let others = enc_calls calls in
    ap group (
      texts-enc_text call.id (enc_text call.name (enc_text call.arguments others))
      ∙ ap (λ ss. call.id ∷ ss)
          (texts-enc_text call.name (enc_text call.arguments others)
            ∙ ap (λ ss. call.name ∷ ss) (texts-enc_text call.arguments others)))
    ∙ ap (λ cs. call ∷ cs) (group-texts calls)

parse-encode : (calls : List ToolCall) → parse (encode calls) ≡ some calls
parse-encode calls = ap some (group-texts calls)

encode_text : (calls : List ToolCall) → (encode calls == "") ≡ false
encode_text calls = elim (Bool-cases (encode calls == "")) [
  | inl t ↦ let wrong : encode calls ≡ "" = (eq_iff (encode calls) "").0 t in cc
  | inr f ↦ f
]

abbrev env : String → Env
env name = record {
  chat_stream = λ t request. done (reply_to name request.messages);
  tools = λ t. tool "read_file" ∷ [];
  race = λ t context call. record { ticks = []; ends = answers (found call.name) };
  order = λ calls. calls;
  subagents = none;
  decode = λ arguments. [];
  trace_data = λ call. call.name;
  encode = encode;
  quoted = λ s. s;
  decimal = λ n. "10";
  redact = λ s. s;
  saves = λ m t. true;
  records = false;
}

abbrev cfg : Config
cfg = record {
  name = "writer";
  model = "m";
  system_prompt = "";
  max_tokens = 100;
  max_tool_rounds = 0;
  max_turns = 0;
  max_tool_result_size = 0;
}

abbrev place : Place
place = record { task_id = "t"; context_id = "c"; root_context_id = "c"; group_id = "" }

abbrev user : ChatMessage
user = record {
  role = "user";
  content = "Read it.";
  reasoning_content = "";
  tool_calls = [];
  tool_call_id = "";
}

abbrev good_end : Outcome String × Trace
good_end = run_loop (env "read_file") cfg place (user ∷ []) []

good : good_end.0 ≡ done "It says hi."
unfolding run_loop find_or_run
good = refl

run_loop_le_example :
    requests good_end.1
    ≤ requests []
      + min (suc (max_rounds (env "read_file") cfg place)) (max_turns (env "read_file") cfg place)
run_loop_le_example = run_loop_le (env "read_file") cfg place (user ∷ []) []

run_loop-left_open_example : left_open parse (saved_rows good_end.1) ≡ some []
unfolding run_loop find_or_run left_open awaits build_chat_history saved_rows all
run_loop-left_open_example =
    run_loop-left_open (env "read_file") cfg place parse [] (λ m t. refl) parse-encode encode_text
      (user ∷ []) [] good_end.1 "It says hi." (saved_rows good_end.1) refl refl refl refl

handle_request-IsAnswered_example :
    All IsAnswered (handle_request (env "read_file") cfg place parse (some []) "Read it." [])
unfolding awaits build_chat_history
handle_request-IsAnswered_example =
    handle_request-IsAnswered (env "read_file") cfg place parse [] "Read it." [] refl tt

abbrev bad_end : Outcome String × Trace
bad_end = run_loop (env "write_file") cfg place (user ∷ []) []

-- What this run leaves awaits an answer, which the next request in this context lacks.
bad :
    (bad_end.0 ≡ failed "tool write_file not found")
    × (left_open parse (saved_rows bad_end.1) ≡ some ("1" ∷ []))
unfolding run_loop find_or_run left_open run_serially is_tool_not_found_error contains awaits
    build_chat_history saved_rows
bad = (refl, refl)
