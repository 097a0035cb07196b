-- ===== src/Subagent/Rounds.antt =====
-- What a subagent sends to its provider.
use a2a_platform_go.Prelude.{
  ℕ, zero, suc, ◌+◌, ◌≤◌, ◌≡◌, refl, ◌∙◌, ap, String, some, List, [], ◌∷◌, ◌++◌, map, All, arith,
  eq_refl,
}
use a2a_platform_go.Llm.{ToolCall, ChatMessage, Heard, Outcome, done, failed}
use a2a_platform_go.Llm.Paired.{awaits, awaits-append}
use a2a_platform_go.Subagent.Loop.{
  Effect, asked, executed, Trace, Env, Run, answer_to, run_calls, heard_in, conclude, decide,
  rounds, run_llm_loop, message, request, max_subagent_rounds,
}

abbrev pub IsAnswered : Effect → Type 0
IsAnswered (asked r) = awaits (some []) r.messages ≡ some []
IsAnswered (executed name args) = Unit

abbrev is_asked : Effect → ℕ
is_asked (asked r) = 1
is_asked (executed name args) = 0

-- The requests in a trace.
unfoldable pub requests : Trace → ℕ
requests [] = 0
requests (e ∷ t) = is_asked e + requests t

-- At most `n` requests, in each of which all calls of tools are answered.
abbrev pub IsSound : ℕ → Trace → Type 0
IsSound n t = (requests t ≤ n) × All IsAnswered t

abbrev ids : List ToolCall → List String
ids calls = map (λ (c : ToolCall). c.id) calls

module _ (env : Env) where
  answered_first :
      (call : ToolCall) (t : Trace) (awaited : List String)
      → awaits (some (call.id ∷ awaited)) (answer_to env call t ∷ []) ≡ some awaited
  unfolding awaits
  answered_first call t awaited = rw (eq_refl call.id) refl

  run_calls-awaits :
      (calls : List ToolCall) (messages : List ChatMessage) (t : Trace)
      → awaits (some []) messages ≡ some (ids calls)
      → awaits (some []) (run_calls env calls messages t).0 ≡ some []
  unfolding run_calls
  run_calls-awaits [] messages t h = h
  run_calls-awaits (call ∷ calls) messages t h = run_calls-awaits calls _ _ (
      awaits-append (some []) messages (answer_to env call t ∷ [])
      ∙ ap (λ o. awaits o (answer_to env call t ∷ [])) h
      ∙ answered_first call t (ids calls))

  run_calls-IsSound :
      (n : ℕ) (calls : List ToolCall) (messages : List ChatMessage) (t : Trace)
      → IsSound n t
      → IsSound n (run_calls env calls messages t).1
  unfolding run_calls requests
  run_calls-IsSound n [] messages t h = h
  run_calls-IsSound n (call ∷ calls) messages t (few, all_answered) =
      run_calls-IsSound n calls _ _ (omega (arith, few), (tt, all_answered))

  -- What a round must do from a sound state.
  abbrev IsRound : ℕ → ℕ → (List ChatMessage → Run String) → Type 0
  IsRound n more round =
      (messages : List ChatMessage) (t : Trace)
      → awaits (some []) messages ≡ some []
      → IsSound n t
      → IsSound (n + more) (round messages t).1

  assistant-awaits :
      (messages : List ChatMessage) (content : String) (calls : List ToolCall)
      → awaits (some []) messages ≡ some []
      → awaits (some []) (messages ++ message "assistant" content calls "" ∷ []) ≡ some (ids calls)
  unfolding awaits
  assistant-awaits messages content calls h =
      awaits-append (some []) messages (message "assistant" content calls "" ∷ [])
      ∙ ap (λ o. awaits o (message "assistant" content calls "" ∷ [])) h

  conclude-IsSound :
      (n more : ℕ) (round : List ChatMessage → Run String) (messages : List ChatMessage)
      (calls : List ToolCall) (h : Heard) (t : Trace)
      → IsRound n more round
      → awaits (some []) messages ≡ some []
      → IsSound n t
      → IsSound (n + more) (conclude env round messages calls h t).1
  conclude-IsSound n more round messages [] h t k paired (few, all_answered) =
      (omega (arith, few), all_answered)
  conclude-IsSound n more round messages (call ∷ calls) h t k paired sound =
      let now = messages ++ message "assistant" h.text (call ∷ calls) "" ∷ [] in
      k _ _
        (run_calls-awaits (call ∷ calls) now t
          (assistant-awaits messages h.text (call ∷ calls) paired))
        (run_calls-IsSound n (call ∷ calls) now t sound)

  decide-IsSound :
      (n more : ℕ) (round : List ChatMessage → Run String) (messages : List ChatMessage)
      (o : Outcome Heard) (t : Trace)
      → IsRound n more round
      → awaits (some []) messages ≡ some []
      → IsSound n t
      → IsSound (n + more) (decide env round messages o t).1
  decide-IsSound n more round messages (failed e) t k paired (few, all_answered) =
      (omega (arith, few), all_answered)
  decide-IsSound n more round messages (done h) t k paired sound =
      conclude-IsSound n more round messages h.tool_calls h t k paired sound

  rounds-IsSound : (n left : ℕ) → IsRound n left (rounds env left)
  unfolding rounds requests
  rounds-IsSound n zero messages t paired (few, all_answered) = (omega (arith, few), all_answered)
  rounds-IsSound n (suc left) messages t paired (few, all_answered) =
      let (few_more, all_now) =
        decide-IsSound (n + 1) left (rounds env left) messages
          (heard_in env (env.chat_stream t (request env messages)))
          (asked (request env messages) ∷ t) (rounds-IsSound (n + 1) left) paired
          (omega (arith, few), (paired, all_answered)) in
      (omega (arith, few_more), all_now)

  -- Where the conversation that it starts with has no call of a tool without an answer, a subagent
  -- asks its provider at most ten times, and in each request each call of a tool is
  -- answered by one message of its own, in the order of the calls, directly after the message that
  -- makes them.
  pub run_llm_loop-IsSound :
      (messages : List ChatMessage)
      → awaits (some []) messages ≡ some []
      → IsSound max_subagent_rounds (run_llm_loop env messages []).1
  unfolding run_llm_loop requests
  run_llm_loop-IsSound messages paired =
      rounds-IsSound 0 max_subagent_rounds messages [] paired (omega arith, tt)
