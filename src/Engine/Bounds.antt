-- ===== src/Engine/Bounds.antt =====
-- How often a run asks the provider.
use a2a_platform_go.Prelude.{
  ℕ, zero, suc, ◌+◌, ◌-◌, ◌≤◌, min, String, ◌≡◌, refl, ◌∙◌, true, List, [], ◌∷◌, ltb, Bool-cases,
  inl, inr, arith,
}
use a2a_platform_go.Llm.{
  ToolCall, ToolDef, ChatMessage, Heard, Outcome, done, failed, StreamEvent, nothing, Message,
}
use a2a_platform_go.Engine.{
  Config, Effect, asked, ran, told, saved, recorded, session_created, subagent_run, Trace, Env,
  Place, Run, save,
}
use a2a_platform_go.Engine.Rounds.{
  hear, heard_in, act, Next, stop, resume, act_then, conclude, decide, one_round, rounds, run_loop,
  max_rounds, max_turns, request,
}
use a2a_platform_go.Engine.Quiet.{IsKept, is_quiet, listen-Keeps}
use a2a_platform_go.Engine.Kept.{Property, Moves, After, act-After}

abbrev pub is_asked : Effect → ℕ
is_asked (asked r) = 1
is_asked _ = 0

-- The requests in a trace.
unfoldable pub requests : Trace → ℕ
requests [] = 0
requests (e ∷ t) = is_asked e + requests t

is_asked-quiet : (e : Effect) → is_quiet e ≡ true → is_asked e ≡ 0
is_asked-quiet (asked r) q = cc
is_asked-quiet (saved m) q = refl
is_asked-quiet (ran context call) q = refl
is_asked-quiet (told sse) q = refl
is_asked-quiet (recorded line) q = refl
is_asked-quiet (session_created task context) q = refl
is_asked-quiet (subagent_run id task) q = refl

abbrev Asked : ℕ → Property
Asked n awaited messages t = requests t ≡ n

requests-quiet : (n : ℕ) → IsKept (λ t. requests t ≡ n)
unfolding requests
requests-quiet n e t q h = omega (arith, is_asked-quiet e q, h)

module _ (env : Env) (cfg : Config) (place : Place) where
  requests-save : (m : Message) (t : Trace) → requests (save env m t) ≡ requests t
  unfolding save requests
  requests-save m t = elim (Bool-cases (env.saves m t)) [
    | inl stores ↦ rw stores (omega arith)
    | inr drops ↦ rw drops refl
  ]

  Asked-Moves : (n : ℕ) → Moves env cfg place (Asked n)
  Asked-Moves n = record {
    quiet_kept = λ awaited messages. requests-quiet n;
    answered = λ call text awaited messages t p. requests-save _ t ∙ p;
    called = λ h messages t p. requests-save _ t ∙ p;
  }

  After-requests :
      (n : ℕ) (r : Outcome (List ChatMessage) × Trace) → After (Asked n) r → requests r.1 ≡ n
  After-requests n (done messages, t) p = p
  After-requests n (failed e, t) (awaited, messages, p) = p

  requests-act :
      (tools : List ToolDef) (h : Heard) (messages : List ChatMessage) (t : Trace)
      → requests (act env cfg place tools h messages t).1 ≡ requests t
  requests-act tools h messages t =
      After-requests (requests t) (act env cfg place tools h messages t) (
        act-After env cfg place (Asked (requests t)) (Asked-Moves (requests t)) tools h messages t
          refl)

  requests-heard_in :
      (o : Outcome (List StreamEvent)) (t : Trace)
      → requests (heard_in env cfg place o t).1 ≡ requests t
  requests-heard_in (failed e) t = refl
  requests-heard_in (done events) t =
      listen-Keeps (λ u. requests u ≡ requests t) (requests-quiet (requests t)) events nothing t
        refl

  requests-hear :
      (messages : List ChatMessage) (t : Trace)
      → requests (hear env cfg place messages t).1 ≡ requests t + 1
  unfolding hear requests
  requests-hear messages t =
      let ask = request env cfg place messages (env.tools t) in
      requests-heard_in (env.chat_stream t ask) (asked ask ∷ t) ∙ omega arith

  -- The requests that a continuation adds are at most `n`.
  abbrev Adds : ℕ → Next → Type 0
  Adds n next =
      (tools : List ToolDef) (h : Heard) (messages : List ChatMessage) (t : Trace)
      → requests (next tools h messages t).1 ≤ requests t + n

  conclude_le :
      (n : ℕ) (next : Next) (tools : List ToolDef) (messages : List ChatMessage)
      (calls : List ToolCall) (h : Heard) (t : Trace)
      → Adds n next
      → requests (conclude env cfg place next tools messages calls h t).1 ≤ requests t + n
  conclude_le n next tools messages [] h t k = omega (arith, requests-save _ t)
  conclude_le n next tools messages (call ∷ calls) h t k = k tools h messages t

  decide_le :
      (n : ℕ) (next : Next) (tools : List ToolDef) (messages : List ChatMessage)
      (r : Outcome Heard × Trace)
      → Adds n next
      → requests (decide env cfg place next tools messages r).1 ≤ requests r.1 + n
  decide_le n next tools messages (failed e, t) k = omega arith
  decide_le n next tools messages (done h, t) k =
      conclude_le n next tools messages h.tool_calls h t k

  -- What is left to ask, of the rounds and of the turns.
  abbrev allowed : ℕ → ℕ → ℕ
  allowed left turn = min left (max_turns env cfg place - turn)

  one_round_le :
      (left : ℕ) (next : Next) (turn : ℕ) (messages : List ChatMessage) (t : Trace)
      → Adds (allowed left (turn + 1)) next
      → requests (one_round env cfg place next turn messages t).1
        ≤ requests t + allowed (suc left) turn
  unfolding one_round
  one_round_le left next turn messages t k =
      let limit = max_turns env cfg place in
      elim (Bool-cases (ltb limit (turn + 1))) [
        | inl over ↦ rw over (omega arith)
        | inr within ↦
            let more =
              decide_le (allowed left (turn + 1)) next (env.tools t) messages
                (hear env cfg place messages t) k in
            let room : turn + 1 ≤ limit = ground (arith, within) in
            rw within (omega (arith, more, room, requests-hear messages t))
      ]

  resume_le :
      (n m : ℕ) (round : List ChatMessage → Run String) (r : Outcome (List ChatMessage) × Trace)
      → ((ms : List ChatMessage) (t : Trace) → requests (round ms t).1 ≤ requests t + n)
      → requests r.1 ≡ m
      → requests (resume env cfg place round r).1 ≤ m + n
  resume_le n m round (failed e, t) k h = omega (arith, h)
  resume_le n m round (done ms, t) k h = omega (arith, h, k ms t)

  rounds_le :
      (left turn : ℕ) (messages : List ChatMessage) (t : Trace)
      → requests (rounds env cfg place left turn messages t).1
        ≤ requests t + allowed (suc left) turn
  unfolding rounds
  rounds_le zero turn messages t =
      one_round_le 0 (stop env cfg place) turn messages t (λ tools h ms u. omega arith)
  rounds_le (suc left) turn messages t =
      let round = rounds env cfg place left (turn + 1) in
      one_round_le (suc left) (act_then env cfg place round) turn messages t (λ tools h ms u.
        resume_le (allowed (suc left) (turn + 1)) (requests u) round
          (act env cfg place tools h ms u) (rounds_le left (turn + 1)) (requests-act tools h ms u))

  -- A run sends the provider at most one request more than the rounds with tools that the
  -- configuration allows (10 where it says 0), and at most as many as the turns that it allows
  -- (20 where it says 0).
  pub run_loop_le :
      (messages : List ChatMessage) (t : Trace)
      → requests (run_loop env cfg place messages t).1
        ≤ requests t + min (suc (max_rounds env cfg place)) (max_turns env cfg place)
  unfolding run_loop
  run_loop_le messages t =
      let bound = rounds_le (max_rounds env cfg place) 0 messages t in omega (arith, bound)
