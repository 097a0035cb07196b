-- ===== src/Turn/Tests.antt =====
-- A turn of a free chat with two agents.
use a2a_platform_go.Prelude.{
  ◌≤◌, String, ◌≡◌, refl, true, none, List, [], ◌∷◌, length, any, find, select,
}
use a2a_platform_go.Prelude.Text.{trim_space}
use a2a_platform_go.Sql.{ok}
use a2a_platform_go.Group.{Group, GroupMember, GroupEvent, normalize_actor_type}
use a2a_platform_go.Group.Tests.{env, world, group, member, tables}
use a2a_platform_go.Turn.{Platform, max_speakers, maybe_run_group_turn}
use a2a_platform_go.Turn.Candidates.{free_chat_candidates, select_group_leader}
use a2a_platform_go.Turn.Orchestration.{
  select_group_leader_lem, first_or, build_group_orchestration_state,
}
use a2a_platform_go.Turn.Bounds.{maybe_run_group_turn-length}
use a2a_platform_go.Turn.Eligible.{free_chat_candidates_lem, contains, distinct, is_eligible}

-- Every agent can be asked and says "hi".
abbrev platform : Platform
platform = record {
  rules = λ raw. record { max_speakers = 1; auto_artifact = none; artifact_name = "" };
  hot_messages = λ raw. 0;
  metadata = λ id mode key value. "{}";
  decimal = λ n. "n";
  rfc3339 = λ n. "t";
  can_invoke = λ agent. true;
  invoke =
      λ group event members recent agent role. record { text = " hi"; status = 200; body = "" };
}

abbrev message : String → GroupEvent
message sender = record {
  id = 1;
  group_id = "g";
  event_type = "message";
  sender_type = "agent";
  sender_id = sender;
  content = "hi";
  metadata_json = "{}";
  created_at = 5;
}

abbrev members : List GroupMember
members = member "a" ∷ member "b" ∷ member "c" ∷ []

abbrev ruled : Group
ruled = record group { rules_json = "{}" }

-- "a" has spoken, "b" answers, and "c" is one too many.
one_answer :
    (maybe_run_group_turn platform ruled (message "a") members env (world tables)).0
    ≡ ok (message "b" ∷ [])
unfolding maybe_run_group_turn find select any normalize_actor_type
one_answer = refl

maybe_run_group_turn-length_example : (length (message "b" ∷ []) ≤ 1) × (1 ≤ 8)
unfolding max_speakers trim_space
maybe_run_group_turn-length_example =
    maybe_run_group_turn-length platform ruled (message "a") members env (world tables)
      (message "b" ∷ []) one_answer

free_chat_candidates_lem_example :
    (contains "b" (free_chat_candidates members "agent" "a")
      ≡ any (is_eligible "agent" "a" "b") members)
    × (distinct (free_chat_candidates members "agent" "a") ≡ true)
free_chat_candidates_lem_example = free_chat_candidates_lem "agent" "a" members "b"

abbrev led : Group
led = record group { orchestration_mode = "leader_led" }

abbrev led_members : List GroupMember
led_members = member "a" ∷ record (member "b") { role = "leader" } ∷ []

select_group_leader_lem_example :
    select_group_leader led_members
    ≡ first_or "" (build_group_orchestration_state led led_members).eligible_speakers
select_group_leader_lem_example = select_group_leader_lem led led_members refl
