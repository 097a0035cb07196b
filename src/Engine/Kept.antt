-- ===== src/Engine/Kept.antt =====
-- What a whole run keeps: a property of the calls that await an answer, of the conversation and of
-- the trace, if each of the engine's five moves keeps it.
use a2a_platform_go.Prelude.{
  ℕ, zero, suc, ◌+◌, String, refl, inl, inr, List, [], ◌∷◌, ◌++◌, ltb, map, Bool-cases,
}
use a2a_platform_go.Llm.{
  ToolCall, ToolDef, ChatMessage, Outcome, done, failed, StreamEvent, Heard, nothing,
}
use a2a_platform_go.Engine.{
  Config, asked, told, Trace, Env, Place, Run, save, call_start, call_end, result, truncate,
}
use a2a_platform_go.Engine.Calls.{
  Results, result_of, starts, finishes, goes_on, process_calls, tool_message, tool_row,
  truncated_result, redacted,
}
use a2a_platform_go.Engine.Rounds.{
  hear, request, assistant_message, agent_row, redact_tool_calls, act, Next, stop, resume, act_then,
  heard_in, conclude, decide, one_round, rounds, max_turns,
}
use a2a_platform_go.Engine.Quiet.{
  IsKept, listen-Keeps, result_of-Keeps, pre_execute-Keeps, record_trace-Keeps,
}

abbrev pub Property : Type 1
Property = List String → List ChatMessage → Trace → Type 0

abbrev pub ids : List ToolCall → List String
ids calls = map (λ (c : ToolCall). c.id) calls

-- What is left after a part of a run: nothing awaits an answer unless it failed.
abbrev pub After : Property → Outcome (List ChatMessage) × Trace → Type 0
After P (done messages, t) = P [] messages t
After P (failed e, t) =
    (awaited : List String) × (messages : List ChatMessage) × P awaited messages t

abbrev pub Ended : Property → Outcome String × Trace → Type 0
Ended P (done answer, t) = (messages : List ChatMessage) × P [] messages t
Ended P (failed e, t) =
    (awaited : List String) × (messages : List ChatMessage) × P awaited messages t

module _ (env : Env) (cfg : Config) (place : Place) (P : Property) where
  pub record Moves : Type 0 where
    pub quiet_kept :
        (awaited : List String) (messages : List ChatMessage) → IsKept (P awaited messages)
    pub answered :
        (call : ToolCall) (text : String) (awaited : List String) (messages : List ChatMessage)
        (t : Trace)
        → P (call.id ∷ awaited) messages t
        → P awaited
            (messages ++ tool_message env cfg place call text ∷ [])
            (save env (tool_row env cfg place call text) t)
    pub called :
        (h : Heard) (messages : List ChatMessage) (t : Trace)
        → P [] messages t
        → P (ids h.tool_calls) (messages ++ assistant_message env cfg place h ∷ []) (
            save env
              (agent_row env cfg place h
                (env.encode (redact_tool_calls env cfg place h.tool_calls)))
              t)

module _ (env : Env) (cfg : Config) (place : Place) (P : Property)
    (moves : Moves env cfg place P) where
  starts-Keeps :
      (call : ToolCall) (awaited : List String) (messages : List ChatMessage) (t : Trace)
      → P awaited messages t
      → P awaited messages (starts env cfg place call t)
  starts-Keeps call awaited messages t p =
      let start = told (call_start (redacted env cfg place call)) in
      record_trace-Keeps env cfg place (P awaited messages) (moves.quiet_kept awaited messages) call
        (start ∷ t) (moves.quiet_kept awaited messages start t refl p)

  finishes-Keeps :
      (call : ToolCall) (text : String) (awaited : List String) (messages : List ChatMessage)
      (t : Trace)
      → P (call.id ∷ awaited) messages t
      → P awaited
          (messages ++ tool_message env cfg place call text ∷ [])
          (finishes env cfg place call text t)
  finishes-Keeps call text awaited messages t p =
      let ended = told (call_end (redacted env cfg place call)) in
      let shown = told (result (redacted env cfg place call) (truncate 2000 (env.redact text))) in
      let kept = moves.quiet_kept (call.id ∷ awaited) messages in
      moves.answered call text awaited messages _
        (kept shown (ended ∷ t) refl (kept ended t refl p))

  goes_on-After :
      (call : ToolCall) (others : List ChatMessage → Run (List ChatMessage)) (awaited : List String)
      (messages : List ChatMessage) (r : Outcome String × Trace)
      → ((ms : List ChatMessage) (t : Trace) → P awaited ms t → After P (others ms t))
      → P (call.id ∷ awaited) messages r.1
      → After P (goes_on env cfg place call others messages r)
  goes_on-After call others awaited messages (failed e, t) k p = (call.id ∷ awaited, messages, p)
  goes_on-After call others awaited messages (done text, t) k p =
      k _ _ (finishes-Keeps call (truncated_result env cfg place text) awaited messages t p)

  pub process_calls-After :
      (early : Results) (calls : List ToolCall) (messages : List ChatMessage) (t : Trace)
      → P (ids calls) messages t
      → After P (process_calls env cfg place early calls messages t)
  unfolding process_calls
  process_calls-After early [] messages t p = p
  process_calls-After early (call ∷ calls) messages t p =
      let u = starts env cfg place call t in
      goes_on-After call (process_calls env cfg place early calls) (ids calls) messages
        (result_of env cfg place early call u) (λ ms v q. process_calls-After early calls ms v q)
        (result_of-Keeps env cfg place (P (ids (call ∷ calls)) messages)
          (moves.quiet_kept (ids (call ∷ calls)) messages) early call u
          (starts-Keeps call (ids (call ∷ calls)) messages t p))

  pub act-After :
      (tools : List ToolDef) (h : Heard) (messages : List ChatMessage) (t : Trace)
      → P [] messages t
      → After P (act env cfg place tools h messages t)
  unfolding act
  act-After tools h messages t p =
      let row =
        agent_row env cfg place h (env.encode (redact_tool_calls env cfg place h.tool_calls)) in
      let asked_for = ids h.tool_calls in
      let now = messages ++ assistant_message env cfg place h ∷ [] in
      process_calls-After _ h.tool_calls now _ (
        pre_execute-Keeps env cfg place (P asked_for now) (moves.quiet_kept asked_for now) tools
          h.tool_calls (save env row t) (moves.called h messages t p))

module _ (env : Env) (cfg : Config) (place : Place) (P : Property) (moves : Moves env cfg place P)
    (asks : (messages : List ChatMessage) (tools : List ToolDef) (t : Trace)
      → P [] messages t
      → P [] messages (asked (request env cfg place messages tools) ∷ t))
    (ends : (h : Heard) (messages : List ChatMessage) (t : Trace)
      → P [] messages t
      → P [] messages (save env (agent_row env cfg place h "") t)) where
  heard_in-Keeps :
      (o : Outcome (List StreamEvent)) (messages : List ChatMessage) (t : Trace)
      → P [] messages t
      → P [] messages (heard_in env cfg place o t).1
  heard_in-Keeps (failed e) messages t p = p
  heard_in-Keeps (done events) messages t p =
      listen-Keeps (P [] messages) (moves.quiet_kept [] messages) events nothing t p

  hear-Keeps :
      (messages : List ChatMessage) (t : Trace)
      → P [] messages t
      → P [] messages (hear env cfg place messages t).1
  unfolding hear
  hear-Keeps messages t p =
      let ask = request env cfg place messages (env.tools t) in
      heard_in-Keeps (env.chat_stream t ask) messages (asked ask ∷ t)
        (asks messages (env.tools t) t p)

  abbrev KeptBy : Next → Type 0
  KeptBy next =
      (tools : List ToolDef) (h : Heard) (messages : List ChatMessage) (t : Trace)
      → P [] messages t
      → Ended P (next tools h messages t)

  conclude-Ended :
      (next : Next) (tools : List ToolDef) (messages : List ChatMessage) (calls : List ToolCall)
      (h : Heard) (t : Trace)
      → KeptBy next
      → P [] messages t
      → Ended P (conclude env cfg place next tools messages calls h t)
  conclude-Ended next tools messages [] h t k p = (messages, ends h messages t p)
  conclude-Ended next tools messages (call ∷ calls) h t k p = k tools h messages t p

  decide-Ended :
      (next : Next) (tools : List ToolDef) (messages : List ChatMessage) (r : Outcome Heard × Trace)
      → KeptBy next
      → P [] messages r.1
      → Ended P (decide env cfg place next tools messages r)
  decide-Ended next tools messages (failed e, t) k p = ([], messages, p)
  decide-Ended next tools messages (done h, t) k p =
      conclude-Ended next tools messages h.tool_calls h t k p

  one_round-Ended :
      (next : Next) (turn : ℕ) (messages : List ChatMessage) (t : Trace)
      → KeptBy next
      → P [] messages t
      → Ended P (one_round env cfg place next turn messages t)
  unfolding one_round
  one_round-Ended next turn messages t k p =
      elim (Bool-cases (ltb (max_turns env cfg place) (turn + 1))) [
        | inl over ↦ rw over ([], messages, p)
        | inr within ↦ rw within (
            decide-Ended next (env.tools t) messages (hear env cfg place messages t) k
              (hear-Keeps messages t p))
      ]

  resume-Ended :
      (round : List ChatMessage → Run String) (r : Outcome (List ChatMessage) × Trace)
      → ((ms : List ChatMessage) (t : Trace) → P [] ms t → Ended P (round ms t))
      → After P r
      → Ended P (resume env cfg place round r)
  resume-Ended round (failed e, t) k p = p
  resume-Ended round (done ms, t) k p = k ms t p

  pub rounds-Ended :
      (left turn : ℕ) (messages : List ChatMessage) (t : Trace)
      → P [] messages t
      → Ended P (rounds env cfg place left turn messages t)
  unfolding rounds
  rounds-Ended zero turn messages t p =
      one_round-Ended (stop env cfg place) turn messages t (λ tools h ms u q. ([], ms, q)) p
  rounds-Ended (suc left) turn messages t p =
      let round = rounds env cfg place left (turn + 1) in
      one_round-Ended (act_then env cfg place round) turn messages t
        (λ tools h ms u q.
          resume-Ended round _ (rounds-Ended left (turn + 1))
            (act-After env cfg place P moves tools h ms u q))
        p
