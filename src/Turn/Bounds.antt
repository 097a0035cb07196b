-- ===== src/Turn/Bounds.antt =====
-- How many events a turn of a group adds.
use a2a_platform_go.Prelude.{
  ℕ, ◌≤◌, String, ◌≡◌, false, ◌||◌, not, List, [], ◌∷◌, ◌==◌, leb, arith, if◌then◌else◌, length,
  length-append, Bool-cases, inl, inr,
}
use a2a_platform_go.Prelude.{◌++◌ as ◌⧺◌}
use a2a_platform_go.Prelude.Text.{trim_space}
use a2a_platform_go.Sql.{Env, World, Sql, ok, pure, ◌>>=◌, ◌>>◌}
use a2a_platform_go.Sql.Returns.{Returns, Returns-pure, Returns-if, Returns-bind, Returns-any}
use a2a_platform_go.Group.{Group, GroupMember, GroupEvent, Tables}
use a2a_platform_go.Group.Events
use a2a_platform_go.Turn.Candidates.{select_group_leader, free_chat_candidates, is_no_reply}
use a2a_platform_go.Turn.{
  Platform, Reply, max_speakers, append_system_group_event, system_event, agent_event, failure_text,
  reaction, free_chat_loop, free_chat_hot_message_limit, speak, upsert_auto_artifact, lead,
  maybe_run_free_chat_turn, maybe_run_leader_turn, maybe_run_group_turn,
}

abbrev AtMost : ℕ → List GroupEvent → Type 0
AtMost n es = length es ≤ n

below :
    (limit : ℕ) (triggered new : List GroupEvent)
    → leb limit (length triggered) ≡ false
    → length new ≤ 1
    → length (triggered ⧺ new) ≤ limit
below limit triggered new room one = grind (arith, length-append triggered new)

-- One event, whatever is appended.
appended-AtMost :
    (e : GroupEvent) → Returns (AtMost 1) (Events.append e >>= λ stored. pure (stored ∷ []))
appended-AtMost e =
    Returns-bind (Events.append e) (λ stored. pure (stored ∷ [])) (Returns-any (Events.append e))
      (λ stored _. Returns-pure (stored ∷ []) (omega arith))

module _ (p : Platform) where
  system-AtMost :
      (group_id content : String) (trigger : ℕ) (mode : String)
      → Returns (AtMost 1) (append_system_group_event p group_id content trigger mode)
  unfolding append_system_group_event
  system-AtMost group_id content trigger mode =
      appended-AtMost (system_event p group_id content trigger mode)

  -- A free-chat turn has at least one speaker and at most eight.
  pub max_speakers_le : (group : Group) → (1 ≤ max_speakers p group) × (max_speakers p group ≤ 8)
  unfolding max_speakers
  max_speakers_le group = (ground arith, ground arith)

  module _ (group : Group) (event : GroupEvent) (members : List GroupMember) where
    reaction-AtMost :
        (recent : List GroupEvent) (agent : String)
        → Returns (AtMost 1) (reaction p group event members recent agent)
    reaction-AtMost recent agent =
        let reply = p.invoke group event members recent agent "free_chat" in
        let text = trim_space reply.text in
        let nothing : Returns (AtMost 1) (pure []) = Returns-pure [] (omega arith) in
        Returns-if (leb 400 reply.status) _ _
          (system-AtMost group.id (failure_text p "agent" agent reply) event.id
            group.orchestration_mode)
          (Returns-if (text == "" || is_no_reply text) _ _ nothing
            (appended-AtMost (agent_event p group event "free_chat" "participant" agent text)))

    loop-AtMost :
        (limit : ℕ) (recent : List GroupEvent) (agents : List String) (triggered : List GroupEvent)
        → length triggered ≤ limit
        → Returns
            (AtMost limit)
            (free_chat_loop p group event members limit recent agents triggered)
    unfolding free_chat_loop
    loop-AtMost limit recent [] triggered h = Returns-pure triggered h
    loop-AtMost limit recent (agent ∷ agents) triggered h =
        let rest = free_chat_loop p group event members limit recent agents in
        elim (Bool-cases (leb limit (length triggered))) [
          | inl full ↦ rw full (Returns-pure triggered h)
          | inr room ↦ rw room (
              Returns-if (not (p.can_invoke agent)) (rest triggered)
                (reaction p group event members recent agent >>= λ new. rest (triggered ⧺ new))
                (loop-AtMost limit recent agents triggered h)
                (Returns-bind (reaction p group event members recent agent)
                  (λ new. rest (triggered ⧺ new)) (reaction-AtMost recent agent)
                  (λ new one.
                    loop-AtMost limit recent agents (triggered ⧺ new)
                      (below limit triggered new room one))))
        ]

    speak-AtMost :
        (agents : List String)
        → Returns (AtMost (max_speakers p group)) (speak p group event members agents)
    speak-AtMost [] = Returns-pure [] (omega arith)
    speak-AtMost (agent ∷ agents) =
        let limit = max_speakers p group in
        let listed =
          Events.list group.id (free_chat_hot_message_limit p group.memory_policy_json) in
        let loop : List GroupEvent → Sql Tables (List GroupEvent) =
          λ recent. free_chat_loop p group event members limit recent (agent ∷ agents) [] in
        let kept : List GroupEvent → Sql Tables (List GroupEvent) =
          λ triggered. upsert_auto_artifact p group event triggered >> pure triggered in
        Returns-bind listed (λ recent. loop recent >>= kept) (Returns-any listed)
          (λ recent _.
            Returns-bind (loop recent) kept
              (loop-AtMost limit recent (agent ∷ agents) [] (omega arith))
              (λ triggered few.
                Returns-bind (upsert_auto_artifact p group event triggered) (λ _. pure triggered)
                  (Returns-any (upsert_auto_artifact p group event triggered))
                  (λ _ _. Returns-pure triggered few)))

    free_chat-AtMost :
        Returns (AtMost (max_speakers p group)) (maybe_run_free_chat_turn p group event members)
    unfolding maybe_run_free_chat_turn
    free_chat-AtMost =
        Returns-if (not (event.event_type == "message") || event.sender_type == "system") (pure [])
          (speak p group event members
            (free_chat_candidates members event.sender_type event.sender_id))
          (Returns-pure [] (omega arith))
          (speak-AtMost (free_chat_candidates members event.sender_type event.sender_id))

    led-AtMost :
        (e : GroupEvent)
        → Returns (AtMost 1) (
            Events.append e >>= λ stored.
            upsert_auto_artifact p group event (stored ∷ []) >> pure (stored ∷ []))
    led-AtMost e =
        let kept : GroupEvent → Sql Tables (List GroupEvent) =
          λ stored. upsert_auto_artifact p group event (stored ∷ []) >> pure (stored ∷ []) in
        Returns-bind (Events.append e) kept (Returns-any (Events.append e)) (λ stored _.
          Returns-bind (upsert_auto_artifact p group event (stored ∷ [])) (λ _. pure (stored ∷ []))
            (Returns-any (upsert_auto_artifact p group event (stored ∷ [])))
            (λ _ _. Returns-pure (stored ∷ []) (omega arith)))

    lead-AtMost :
        (leader : String) (reply : Reply)
        → Returns (AtMost 1) (lead p group event members leader reply)
    lead-AtMost leader reply =
        Returns-if (leb 400 reply.status) _ _
          (system-AtMost group.id (failure_text p "leader" leader reply) event.id
            group.orchestration_mode)
          (Returns-if (trim_space reply.text == "") _ _ (Returns-pure [] (omega arith))
            (led-AtMost (agent_event p group event "leader_led" "leader" leader reply.text)))

    leader-AtMost : Returns (AtMost 1) (maybe_run_leader_turn p group event members)
    unfolding maybe_run_leader_turn
    leader-AtMost =
        let nothing : Returns (AtMost 1) (pure []) = Returns-pure [] (omega arith) in
        let leader = select_group_leader members in
        let reply = p.invoke group event members [] leader "leader" in
        let led = lead p group event members leader reply in
        let absent = leader == "" || not (p.can_invoke leader) in
        let quiet =
          not (group.orchestration_mode == "leader_led")
          || not (event.event_type == "message")
          || event.sender_type == "agent" in
        Returns-if quiet (pure []) (if absent then pure [] else led) nothing
          (Returns-if absent (pure []) led nothing (lead-AtMost leader reply))

    turn_le :
        (env : Env) (w : World Tables) (events : List GroupEvent)
        → (maybe_run_group_turn p group event members env w).0 ≡ ok events
        → length events ≤ (
            if group.orchestration_mode == "p2p"
            then 0
            else if group.orchestration_mode == "free_chat"
            then max_speakers p group
            else 1)
    unfolding maybe_run_group_turn
    turn_le env w events h = elim (Bool-cases (group.orchestration_mode == "p2p")) [
      | inl alone ↦
          rw alone
            ((Returns-pure {R = AtMost 0} [] (omega arith)).holds env w events (rw alone at h))
      | inr group_mode ↦ elim (Bool-cases (group.orchestration_mode == "free_chat")) [
        | inl free ↦
            rw (group_mode, free) (free_chat-AtMost.holds env w events (rw (group_mode, free) at h))
        | inr other ↦
            rw (group_mode, other) (leader-AtMost.holds env w events (rw (group_mode, other) at h))
      ]
    ]

    -- The events that a turn of a group answers with: none where the mode is p2p, at most
    -- `max_speakers` of them in a free chat, and at most one otherwise; `max_speakers` is eight or
    -- less.
    pub maybe_run_group_turn-length :
        (env : Env) (w : World Tables) (events : List GroupEvent)
        → (maybe_run_group_turn p group event members env w).0 ≡ ok events
        → (length events ≤ (
            if group.orchestration_mode == "p2p"
            then 0
            else if group.orchestration_mode == "free_chat"
            then max_speakers p group
            else 1))
          × (max_speakers p group ≤ 8)
    maybe_run_group_turn-length env w events h = (turn_le env w events h, (max_speakers_le group).1)
