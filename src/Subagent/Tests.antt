-- ===== src/Subagent/Tests.antt =====
-- A subagent that reads a file and reports; and four calls side by side.
use a2a_platform_go.Prelude.{
  ℕ, ◌≡◌, refl, String, Option, none, some, List, [], ◌∷◌, ◌==◌, update, if◌then◌else◌, arith,
}
use a2a_platform_go.Llm.{ToolCall, ChatMessage, Outcome, done, StreamEvent, text, tool_call}
use a2a_platform_go.Llm.Paired.{awaits}
use a2a_platform_go.Sql.{World, exec, statement}
use a2a_platform_go.Sql as Sql
use a2a_platform_go.Subagent.Sessions.{Table, SubagentSession, update_messages, complete}
use a2a_platform_go.Subagent.Loop.{
  Env, run_llm_loop, rounds, hear_all, run_calls, max_subagent_rounds,
}
use a2a_platform_go.Subagent.{
  State, Step, entered, enter, leave, initial_messages, run_existing, work, store_outcome,
  redact_chat_message, system_prompt,
}
use a2a_platform_go.Subagent.Limit.{IsCounted, Permit, call_of, step-Permit, entry}
use a2a_platform_go.Subagent.Rounds.{IsSound, run_llm_loop-IsSound}

abbrev call : ToolCall
call = record { id = "1"; name = "read_file"; arguments = "" }

abbrev reply_to : List ChatMessage → List StreamEvent
reply_to [] = tool_call (some call) ∷ []
reply_to (m ∷ messages) = if m.role == "tool" then text "done" ∷ [] else reply_to messages

-- A conversation is encoded by the roles in it.
abbrev roles : List ChatMessage → String
roles [] = ""
roles (m ∷ []) = m.role
roles (m ∷ n ∷ []) = "system, user"
roles (m ∷ n ∷ more) = "longer"

abbrev env : Env
env = record {
  chat_stream = λ t request. done (reply_to request.messages);
  tools = [];
  execute_tool = λ t name args. done "hi";
  decode = λ s. none;
  encode = roles;
  redact = λ s. s;
  model = "m";
  system_prompt = "";
  max_tokens = 10;
}

abbrev sql : Sql.Env
sql = record {
  collation = λ s. s;
  digest = λ s. s;
  identifier = λ n. "s";
  access_token = λ n. none;
}

abbrev session : String → String → String → Option ℕ → SubagentSession
session status messages result completed_at = record {
  id = "s";
  parent_context_id = "c";
  parent_tool_call_id = "1";
  task = "read";
  context = "";
  status = status;
  messages = messages;
  result = result;
  error = "";
  created_at = 0;
  completed_at = completed_at;
}

abbrev world : Table → World Table
world rows = record { tables = rows; faults = []; seq = 0; now = 7 }

abbrev begin : State
begin = record {
  active_count = 0;
  running = [];
  world = world (session "running" "" "" none ∷ []);
  trace = [];
}

abbrev final : Outcome String × State
final = run_existing sql env "s" "read" "" begin

-- Four messages were exchanged; those that are stored are the first two.
stores_two : final.1.world.tables ≡ session "completed" "system, user" "done" (some 7) ∷ []
unfolding run_existing work enter leave run_llm_loop rounds hear_all run_calls store_outcome
    update_messages complete exec statement update redact_chat_message system_prompt
stores_two = refl

run_llm_loop-IsSound_example :
    IsSound max_subagent_rounds (run_llm_loop env (initial_messages sql env "read" "") []).1
unfolding awaits
run_llm_loop-IsSound_example = run_llm_loop-IsSound env (initial_messages sql env "read" "") refl

abbrev one : State
one = enter sql env "s" begin

abbrev enters : Step sql env begin one
enters = entered "s" refl

step-Permit_example : IsCounted one × Permit entry 0 1
unfolding enter call_of
step-Permit_example = step-Permit sql env begin one enters (refl, omega arith)
