-- ===== src/Registry/Tests.antt =====
-- Two agents: a writer that is connected, and a reader that has been lost and answers again.
use a2a_platform_go.Prelude.{arith, ◌≡◌, refl, String, true, false, none, [], ◌∷◌, find}
use a2a_platform_go.Llm.{done, failed}
use a2a_platform_go.Sql.{World, Result, ok, statement, query, exec}
use a2a_platform_go.Sql as Sql
use a2a_platform_go.Registry.Cards.{Codec, bare_card}
use a2a_platform_go.Registry.Agents.{Agent, get, list}
use a2a_platform_go.Registry.{AgentConnection, Registry, Net, get_client, register_agent}
use a2a_platform_go.Registry.Health.{
  failures, Verdict, failing, phase_a, run_health_check, apply_verdict, phase_b, verdict,
}
use a2a_platform_go.Registry.Consecutive.{is_connected, three_in_a_row}
use a2a_platform_go.Registry.Steady.{
  run_checks, found_failing, run_checks-connected, phase_a-given_up,
}
use a2a_platform_go.Registry.Secret.{HasSucceeded, register_agent-HasSucceeded}
use a2a_platform_go.Registry.Recovery.{run_health_check-connected, answers_again}

abbrev sql : Sql.Env
sql = record {
  collation = λ s. s;
  digest = λ s. s;
  identifier = λ n. "i";
  access_token = λ n. none;
}

abbrev codec : Codec
codec = record {
  encode_card = λ card. card.name;
  decode_card = λ s. none;
  encode_skills = λ skills. "[]";
}

-- Every card is at its address, and every address answers.
abbrev net : Net
net = record {
  fetch_agent_card = λ url. done (bare_card "");
  reach_agent_card = λ url. done tt;
  check_health_url = λ url. done tt;
}

abbrev agent : String → String → Agent
agent name status = record {
  name = name;
  type_name = "external";
  url = "http://x";
  port = 1;
  skills_json = "[]";
  status = status;
  connected_at = none;
  agent_card_json = "";
  error_message = none;
  secret = "s3cret";
}

abbrev conn : AgentConnection
conn = record { card = bare_card "writer"; url = "http://x" }

abbrev registry : Registry
registry = record {
  connections = ("writer", conn) ∷ [];
  fail_counts = [];
  world = record {
    tables = agent "writer" "connected" ∷ agent "reader" "offline" ∷ [];
    faults = [];
    seq = 0;
    now = 5;
  };
  notices = [];
}

abbrev down : Verdict
down = failing "offline" "refused"

-- Nothing answers at the addresses of the connected agents.
abbrev silent : Net
silent = record net { reach_agent_card = λ url. failed "refused" }

run_checks-connected_example :
    is_connected "writer" (run_checks sql codec (silent ∷ silent ∷ net ∷ []) registry) ≡ true
unfolding get_client failures find found_failing three_in_a_row list query phase_a phase_b
run_checks-connected_example =
    run_checks-connected sql codec "writer" (silent ∷ silent ∷ net ∷ []) registry (refl, tt) refl
      refl refl

abbrev failed_twice : Registry
failed_twice = record registry { fail_counts = ("writer", 2) ∷ [] }

phase_a-given_up_example :
    is_connected "writer" (phase_a sql codec silent registry.connections failed_twice) ≡ false
unfolding failures find verdict
phase_a-given_up_example =
    phase_a-given_up sql codec "writer" silent failed_twice (refl, tt) (omega arith) refl

register_agent-HasSucceeded_example :
    HasSucceeded "guess"
      (get "writer" sql registry.world).0
      registry
      (register_agent sql codec net "writer" "" "http://y" 1 [] "guess" "" none registry)
register_agent-HasSucceeded_example =
    register_agent-HasSucceeded sql codec net "writer" "" "http://y" 1 [] "guess" "" none registry

run_health_check-connected_example :
    is_connected "reader" (run_health_check sql codec net registry) ≡ true
unfolding list query statement phase_a answers_again
run_health_check-connected_example =
    run_health_check-connected sql codec net (agent "reader" "offline")
      (agent "writer" "connected" ∷ []) [] registry refl refl refl

abbrev fail : Registry → Registry
fail r = apply_verdict sql codec "writer" down r

abbrev given_up : Registry
given_up = fail (fail (fail registry))

abbrev again : Registry
again = (register_agent sql codec net "writer" "" "http://x" 1 [] "s3cret" "" none given_up).1

-- Registered again, the writer keeps the count of its failures: one more ends the connection.
one_more :
    (is_connected "writer" again ≡ true)
    × (is_connected "writer" (apply_verdict sql codec "writer" down again) ≡ false)
unfolding register_agent get_client apply_verdict
one_more = (refl, refl)
