-- ===== src/Turn/Orchestration.antt =====
-- BuildGroupOrchestrationState of internal/svc/group_store.go: what a group announces of its turns.
use a2a_platform_go.Prelude.{
  String, ◌≡◌, refl, sym, ap, ◌∙◌, Bool, true, false, List, [], ◌∷◌, ◌==◌, map, if◌then◌else◌, find,
  select, Bool-cases, inl, inr,
}
use a2a_platform_go.Group.{Group, GroupMember}
use a2a_platform_go.Turn.Candidates.{is_agent, is_leader, actor_or, select_group_leader}

-- model.GroupOrchestrationState
pub record GroupOrchestrationState : Type 0 where
  pub group_id : String
  pub mode : String
  pub next_action : String
  pub eligible_speakers : List String
  pub context_policy : String
  pub termination_policy : String

abbrev or_agents : List String → List String → List String
or_agents agents [] = agents
or_agents agents (leader ∷ leaders) = leader ∷ leaders

-- groupSpeakers
unfoldable pub group_speakers : List GroupMember → Bool → List String
group_speakers members leaders_only =
    let agents = map (λ (m : GroupMember). m.actor_id) (select is_agent members) in
    if leaders_only
    then or_agents agents (map (λ (m : GroupMember). m.actor_id) (select is_leader members))
    else agents

-- What a mode announces: the next action, the policies of context and termination, and whether only
-- leaders speak.
abbrev announced :
    Group → List GroupMember → String → String → String → Bool → GroupOrchestrationState
announced group members next_action context termination leaders_only = record {
  group_id = group.id;
  mode = group.orchestration_mode;
  next_action = next_action;
  eligible_speakers = group_speakers members leaders_only;
  context_policy = context;
  termination_policy = termination;
}

-- BuildGroupOrchestrationState
unfoldable pub build_group_orchestration_state : Group → List GroupMember → GroupOrchestrationState
unfolding group_speakers
build_group_orchestration_state group members =
    let mode = group.orchestration_mode in
    if mode == "p2p"
    then announced group members "p2p_only"
        "members can discover each other and start direct agent-to-agent calls; group chat broadcast is disabled"
        "no group orchestration is run for p2p network messages" false
    else if mode == "free_chat"
    then announced group members "agents_observe_and_optionally_reply"
        "each agent receives recent room messages, group rules, and the latest message; each decides whether to reply"
        "stop after one bounded reaction wave or max_speakers is reached" false
    else if mode == "roundtable"
    then announced group members "collect_member_intents"
        "all members receive the shared artifact, rolling summary, open questions, and recent key events"
        "finish when every required reviewer votes approved or max_rounds is reached" false
    else if mode == "stateflow"
    then announced group members "advance_configured_phase"
        "only members assigned to the current phase receive phase-specific context"
        "finish when the configured terminal phase emits a final artifact" false
    else if mode == "research_long_horizon"
    then announced group members "checkpoint_or_dispatch_workstream"
        "members receive their workstream state, relevant retrieval memory, artifacts, and checkpoint summaries"
        "finish only after evidence, critic, reproduction, and human checkpoint gates pass" false
    else announced group members "leader_selects_next_speaker"
        "leader receives full room state; selected members receive task-specific context slices"
        "leader publishes final summary or max_rounds is reached" true

abbrev pub first_or : String → List String → String
first_or other [] = other
first_or other (name ∷ names) = name

first-select :
    (p : GroupMember → Bool) (other : String) (members : List GroupMember)
    → first_or other (map (λ (m : GroupMember). m.actor_id) (select p members))
      ≡ actor_or other (find p members)
unfolding select find
first-select p other [] = refl
first-select p other (m ∷ ms) = elim (Bool-cases (p m)) [
  | inl t ↦ rw t refl
  | inr f ↦ rw f (first-select p other ms)
]

first-or_agents :
    (agents leaders : List String)
    → first_or "" (or_agents agents leaders) ≡ first_or (first_or "" agents) leaders
first-or_agents agents [] = refl
first-or_agents agents (leader ∷ leaders) = refl

led_speakers :
    (group : Group) (members : List GroupMember)
    → group.orchestration_mode ≡ "leader_led"
    → (build_group_orchestration_state group members).eligible_speakers
      ≡ group_speakers members true
unfolding build_group_orchestration_state
led_speakers group members led = rw led refl

first-group_speakers :
    (members : List GroupMember)
    → select_group_leader members ≡ first_or "" (group_speakers members true)
unfolding select_group_leader group_speakers
first-group_speakers members =
    let actor : GroupMember → String = λ m. m.actor_id in
    let agents = map actor (select is_agent members) in
    let leaders = map actor (select is_leader members) in
    sym (
      first-or_agents agents leaders
      ∙ ap (λ other. first_or other leaders) (first-select is_agent "" members)
      ∙ first-select is_leader (actor_or "" (find is_agent members)) members)

-- In a leader-led group the agent that selectGroupLeader picks is the first of the speakers that the
-- group's state announces, and none where it announces none.
pub select_group_leader_lem :
    (group : Group) (members : List GroupMember)
    → group.orchestration_mode ≡ "leader_led"
    → select_group_leader members
      ≡ first_or "" (build_group_orchestration_state group members).eligible_speakers
select_group_leader_lem group members led =
    first-group_speakers members ∙ ap (first_or "") (sym (led_speakers group members led))
