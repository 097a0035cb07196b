-- ===== src/Engine/Pairing.antt =====
-- The conversations that the provider is sent.
use a2a_platform_go.Prelude.{
  String, ◌≡◌, refl, ◌∙◌, ap, true, Option, some, List, [], ◌∷◌, ◌++◌, All, Bool-cases, inl, inr,
  eq_refl,
}
use a2a_platform_go.Llm.{ToolCall, ChatMessage, Message, Outcome, done, failed, build_chat_history}
use a2a_platform_go.Llm.Paired.{awaits, awaits-append, answer}
use a2a_platform_go.Engine.{
  Config, Effect, asked, ran, told, saved, recorded, session_created, subagent_run, working, Trace,
  Env, Place, save,
}
use a2a_platform_go.Engine.Calls.{tool_message}
use a2a_platform_go.Engine.Rounds.{
  assistant_message, run_loop, max_rounds, finish, user_message, handle_request,
}
use a2a_platform_go.Engine.Quiet.{is_quiet}
use a2a_platform_go.Engine.Kept.{Property, Moves, Ended, rounds-Ended}

-- A request whose tool calls are all answered, each by the messages that follow it.
abbrev pub IsAnswered : Effect → Type 0
IsAnswered (asked r) = awaits (some []) r.messages ≡ some []
IsAnswered _ = Unit

IsAnswered-quiet : (e : Effect) → is_quiet e ≡ true → IsAnswered e
IsAnswered-quiet (asked r) q = cc
IsAnswered-quiet (saved m) q = tt
IsAnswered-quiet (ran context call) q = tt
IsAnswered-quiet (told sse) q = tt
IsAnswered-quiet (recorded line) q = tt
IsAnswered-quiet (session_created task context) q = tt
IsAnswered-quiet (subagent_run id task) q = tt

abbrev Paired : Property
Paired awaited messages t = (awaits (some []) messages ≡ some awaited) × All IsAnswered t

answered_first : (id : String) (awaited : List String) → answer (id ∷ awaited) id ≡ some awaited
answered_first id awaited = rw (eq_refl id) refl

Ended-All : (r : Outcome String × Trace) → Ended Paired r → All IsAnswered r.1
Ended-All (done answer, t) (messages, p) = p.1
Ended-All (failed e, t) (awaited, messages, p) = p.1

module _ (env : Env) (cfg : Config) (place : Place) where
  save-All : (m : _) (t : Trace) → All IsAnswered t → All IsAnswered (save env m t)
  unfolding save
  save-All m t h = elim (Bool-cases (env.saves m t)) [
    | inl stores ↦ rw stores (tt, h)
    | inr drops ↦ rw drops h
  ]

  Paired-Moves : Moves env cfg place Paired
  unfolding awaits
  Paired-Moves = record {
    quiet_kept = λ awaited messages e t q p. (p.0, (IsAnswered-quiet e q, p.1));
    answered = λ call text awaited messages t p. (
      awaits-append (some []) messages _
          ∙ ap (λ o. awaits o (tool_message env cfg place call text ∷ [])) p.0
          ∙ answered_first call.id awaited,
      save-All _ t p.1,
    );
    called = λ h messages t p. (
      awaits-append (some []) messages _
          ∙ ap (λ o. awaits o (assistant_message env cfg place h ∷ [])) p.0,
      save-All _ t p.1,
    );
  }

  run_loop-IsAnswered :
      (messages : List ChatMessage) (t : Trace)
      → awaits (some []) messages ≡ some []
      → All IsAnswered t
      → All IsAnswered (run_loop env cfg place messages t).1
  unfolding run_loop
  run_loop-IsAnswered messages t paired before = Ended-All (run_loop env cfg place messages t) (
      rounds-Ended env cfg place Paired Paired-Moves (λ ms tools u p. (p.0, (p.0, p.1)))
        (λ h ms u p. (p.0, save-All _ u p.1)) (max_rounds env cfg place) 0 messages t
        (paired, before))

  finish-All :
      (r : Outcome String × Trace) → All IsAnswered r.1 → All IsAnswered (finish env cfg place r)
  finish-All (done answer, t) h = (tt, h)
  finish-All (failed e, t) h = (tt, h)

  awaits-user :
      (messages : List ChatMessage) (user_text : String)
      → awaits (some []) messages ≡ some []
      → awaits (some []) (messages ++ user_message env cfg place user_text ∷ []) ≡ some []
  unfolding awaits
  awaits-user messages user_text h =
      let user = user_message env cfg place user_text ∷ [] in
      awaits-append (some []) messages user ∙ ap (λ o. awaits o user) h

  -- Where the calls of tools in the loaded history are answered, and in every request sent before,
  -- they are in every request that the handling of a message sends to the provider: each call by
  -- one message of its own, in the order of the calls, directly after the message that makes them.
  pub handle_request-IsAnswered :
      (parse : String → Option (List ToolCall)) (loaded : List Message) (user_text : String)
      (t : Trace)
      → awaits (some []) (build_chat_history parse loaded) ≡ some []
      → All IsAnswered t
      → All IsAnswered (handle_request env cfg place parse (some loaded) user_text t)
  unfolding handle_request
  handle_request-IsAnswered parse loaded user_text t paired before =
      let history = build_chat_history parse loaded in
      let messages = history ++ user_message env cfg place user_text ∷ [] in
      finish-All (run_loop env cfg place messages (told working ∷ t)) (
        run_loop-IsAnswered messages (told working ∷ t) (awaits-user history user_text paired)
          (tt, before))
