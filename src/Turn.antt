-- ===== src/Turn.antt =====
-- internal/handler/group.go: the turn of a group that follows a message, in which one leader or
-- several agents are asked for an answer, and the document that is kept of it.
pub mod Candidates
pub mod Bounds
pub mod Eligible
pub mod Orchestration
mod Tests
use Prim.Native.String.{◌++◌}
use a2a_platform_go.Prelude.{
  ℕ, String, Bool, true, false, ◌&&◌, ◌||◌, not, Option, none, some, List, [], ◌∷◌, ◌==◌, ◌=?◌, leb,
  ltb, if◌then◌else◌, length, select,
}
use a2a_platform_go.Prelude.{◌++◌ as ◌⧺◌}
use a2a_platform_go.Prelude.Text.{trim_space}
use a2a_platform_go.Sql.{Env, World, Sql, pure, asks, ◌>>=◌, ◌>>◌}
use a2a_platform_go.Group.{Group, GroupMember, GroupEvent, GroupArtifact, Tables}
use a2a_platform_go.Group.Events
use a2a_platform_go.Group.Artifacts
use a2a_platform_go.Turn.Candidates.{select_group_leader, free_chat_candidates, is_no_reply}

-- groupRules; 0 stands for every number that is not positive.
pub record GroupRules : Type 0 where
  pub max_speakers : ℕ
  pub auto_artifact : Option Bool
  pub artifact_name : String

-- What an agent answers: the text, the status and the body of its response.
pub record Reply : Type 0 where
  pub text : String
  pub status : ℕ
  pub body : String

-- encoding/json on the rules, the memory policy and an event's metadata; the formats of fmt and time;
-- and the agents, which the proxy handler calls with a prompt made of what `invoke` is given.
pub record Platform : Type 0 where
  pub rules : String → GroupRules
  pub hot_messages : String → ℕ
  pub metadata : ℕ → String → String → String → String
  pub decimal : ℕ → String
  pub rfc3339 : ℕ → String
  pub can_invoke : String → Bool
  pub invoke : Group → GroupEvent → List GroupMember → List GroupEvent → String → String → Reply

module _ (p : Platform) where
  -- parseGroupRules
  unfoldable pub parse_group_rules : String → GroupRules
  parse_group_rules raw =
      if trim_space raw == ""
      then record { max_speakers = 0; auto_artifact = none; artifact_name = "" }
      else p.rules raw

  abbrev bounded : ℕ → ℕ
  bounded n = if n =? 0 then 12 else if ltb 80 n then 80 else n

  -- freeChatHotMessageLimit
  unfoldable pub free_chat_hot_message_limit : String → ℕ
  free_chat_hot_message_limit raw = bounded (if trim_space raw == "" then 0 else p.hot_messages raw)

  -- the number of speakers of a free-chat turn
  unfoldable pub max_speakers : Group → ℕ
  unfolding parse_group_rules
  max_speakers group =
      let n = (parse_group_rules group.rules_json).max_speakers in
      if n =? 0 then 3 else if ltb 8 n then 8 else n

  abbrev auto_by_mode : Option Bool → String → Bool
  auto_by_mode (some enabled) mode = enabled
  auto_by_mode none mode =
      mode == "leader_led" || mode == "free_chat" || mode == "research_long_horizon"

  -- autoArtifactEnabled
  unfoldable pub auto_artifact_enabled : Group → Bool
  unfolding parse_group_rules
  auto_artifact_enabled group =
      auto_by_mode (parse_group_rules group.rules_json).auto_artifact group.orchestration_mode

  abbrev name_by_mode : String → String
  name_by_mode mode =
      if mode == "leader_led"
      then "leader-summary.md"
      else if mode == "free_chat"
      then "group-discussion.md"
      else if mode == "research_long_horizon"
      then "research-checkpoint.md"
      else "group-output.md"

  -- autoArtifactName
  unfoldable pub auto_artifact_name : Group → String
  unfolding parse_group_rules
  auto_artifact_name group =
      let name = trim_space (parse_group_rules group.rules_json).artifact_name in
      if name == "" then name_by_mode group.orchestration_mode else name

  unfoldable pub agent_outputs : List GroupEvent → String
  agent_outputs [] = ""
  agent_outputs (e ∷ es) =
      "### " ++ e.sender_id ++ "\n\n" ++ trim_space e.content ++ "\n\n" ++ agent_outputs es

  -- buildAutoArtifactContent, at an instant
  unfoldable pub build_auto_artifact_content : ℕ → Group → GroupEvent → List GroupEvent → String
  unfolding agent_outputs
  build_auto_artifact_content now group trigger agent_events =
      "# "
      ++ (if trim_space group.name == "" then "Group Output" else group.name)
      ++ "\n\n"
      ++ "_Automatically generated by A2A Platform group orchestration._\n\n"
      ++ "Updated: "
      ++ p.rfc3339 now
      ++ "\n\n"
      ++ "Mode: `"
      ++ group.orchestration_mode
      ++ "`\n\n"
      ++ "## Latest Human Request\n\n"
      ++ "From `"
      ++ trigger.sender_type
      ++ ":"
      ++ trigger.sender_id
      ++ "` at "
      ++ p.rfc3339 trigger.created_at
      ++ ":\n\n"
      ++ trim_space trigger.content
      ++ "\n\n"
      ++ "## Agent Outputs\n\n"
      ++ agent_outputs agent_events

  abbrev is_output : GroupEvent → Bool
  is_output e =
      e.event_type == "message" && e.sender_type == "agent" && not (trim_space e.content == "")

  abbrev auto_artifact : ℕ → Group → GroupEvent → List GroupEvent → GroupArtifact
  auto_artifact now group trigger outputs = record {
    id = "";
    group_id = group.id;
    name = auto_artifact_name group;
    artifact_type = "document";
    version = 0;
    content = build_auto_artifact_content now group trigger outputs;
    status = "updated";
    created_by = "platform";
    created_at = 0;
    updated_at = 0;
  }

  abbrev pub keep_outputs : Group → GroupEvent → List GroupEvent → Sql Tables (Unit {0})
  keep_outputs group trigger [] = pure tt
  keep_outputs group trigger (e ∷ es) = do
    now ← asks (λ env w. w.now)
    Artifacts.upsert_by_name (auto_artifact now group trigger (e ∷ es))
    pure tt

  -- upsertAutoArtifact
  unfoldable pub upsert_auto_artifact : Group → GroupEvent → List GroupEvent → Sql Tables (Unit {0})
  unfolding auto_artifact_enabled auto_artifact_name build_auto_artifact_content
      Artifacts.upsert_by_name asks ◌>>=◌
  upsert_auto_artifact group trigger triggered =
      if auto_artifact_enabled group
      then keep_outputs group trigger (select is_output triggered)
      else pure tt

  abbrev pub system_event : String → String → ℕ → String → GroupEvent
  system_event group_id content trigger_event_id mode = record {
    id = 0;
    group_id = group_id;
    event_type = "orchestration_error";
    sender_type = "system";
    sender_id = "platform";
    content = content;
    metadata_json = p.metadata trigger_event_id mode "level" "error";
    created_at = 0;
  }

  -- appendSystemGroupEvent: one event, of the platform
  unfoldable pub append_system_group_event :
      String → String → ℕ → String → Sql Tables (List GroupEvent)
  unfolding Events.append ◌>>=◌
  append_system_group_event group_id content trigger_event_id mode = do
    e ← Events.append (system_event group_id content trigger_event_id mode)
    pure (e ∷ [])

  abbrev pub agent_event : Group → GroupEvent → String → String → String → String → GroupEvent
  agent_event group event mode role agent text = record {
    id = 0;
    group_id = group.id;
    event_type = "message";
    sender_type = "agent";
    sender_id = agent;
    content = text;
    metadata_json = p.metadata event.id mode "role" role;
    created_at = 0;
  }

  abbrev pub failure_text : String → String → Reply → String
  failure_text who agent reply =
      let body = trim_space reply.body in
      if body == ""
      then who ++ " " ++ agent ++ " failed with status " ++ p.decimal reply.status
      else body

  module _ (group : Group) (event : GroupEvent) (members : List GroupMember) where
    -- The events that one candidate's answer adds.
    abbrev pub reaction : List GroupEvent → String → Sql Tables (List GroupEvent)
    reaction recent agent =
        let reply = p.invoke group event members recent agent "free_chat" in
        let text = trim_space reply.text in
        if leb 400 reply.status
        then append_system_group_event group.id (failure_text "agent" agent reply) event.id
            group.orchestration_mode
        else if text == "" || is_no_reply text
        then pure []
        else (do
          e ← Events.append (agent_event group event "free_chat" "participant" agent text)
          pure (e ∷ []))

    -- the loop of maybeRunFreeChatTurn over the candidates, behind those that have spoken
    unfoldable pub free_chat_loop :
        ℕ → List GroupEvent → List String → List GroupEvent → Sql Tables (List GroupEvent)
    unfolding append_system_group_event is_no_reply Events.append ◌>>=◌
    free_chat_loop limit recent [] triggered = pure triggered
    free_chat_loop limit recent (agent ∷ agents) triggered =
        let rest = free_chat_loop limit recent agents in
        if leb limit (length triggered)
        then pure triggered
        else if not (p.can_invoke agent)
        then rest triggered
        else (do new ← reaction recent agent; rest (triggered ⧺ new))

    abbrev pub speak : List String → Sql Tables (List GroupEvent)
    speak [] = pure []
    speak (agent ∷ agents) = do
      recent ← Events.list group.id (free_chat_hot_message_limit group.memory_policy_json)
      triggered ← free_chat_loop (max_speakers group) recent (agent ∷ agents) []
      upsert_auto_artifact group event triggered
      pure triggered

    -- maybeRunFreeChatTurn
    unfoldable pub maybe_run_free_chat_turn : Sql Tables (List GroupEvent)
    unfolding free_chat_candidates free_chat_hot_message_limit max_speakers free_chat_loop
        upsert_auto_artifact Events.list ◌>>=◌
    maybe_run_free_chat_turn =
        if not (event.event_type == "message") || event.sender_type == "system"
        then pure []
        else speak (free_chat_candidates members event.sender_type event.sender_id)

    abbrev pub lead : String → Reply → Sql Tables (List GroupEvent)
    lead leader reply =
        if leb 400 reply.status
        then append_system_group_event group.id (failure_text "leader" leader reply) event.id
            group.orchestration_mode
        else if trim_space reply.text == ""
        then pure []
        else (do
          e ← Events.append (agent_event group event "leader_led" "leader" leader reply.text)
          upsert_auto_artifact group event (e ∷ [])
          pure (e ∷ []))

    -- maybeRunLeaderTurn
    unfoldable pub maybe_run_leader_turn : Sql Tables (List GroupEvent)
    unfolding select_group_leader append_system_group_event upsert_auto_artifact Events.append ◌>>=◌
    maybe_run_leader_turn =
        let leader = select_group_leader members in
        if not (group.orchestration_mode == "leader_led")
          || not (event.event_type == "message")
          || event.sender_type == "agent"
        then pure []
        else if leader == "" || not (p.can_invoke leader)
        then pure []
        else lead leader (p.invoke group event members [] leader "leader")

    -- maybeRunGroupTurn
    unfoldable pub maybe_run_group_turn : Sql Tables (List GroupEvent)
    unfolding maybe_run_free_chat_turn maybe_run_leader_turn
    maybe_run_group_turn =
        if group.orchestration_mode == "p2p"
        then pure []
        else if group.orchestration_mode == "free_chat"
        then maybe_run_free_chat_turn
        else maybe_run_leader_turn
