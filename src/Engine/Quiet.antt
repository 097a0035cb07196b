-- ===== src/Engine/Quiet.antt =====
-- What the parts of a run that neither ask the provider nor store a message keep: any property of
-- the trace that no such effect destroys.
use a2a_platform_go.Prelude.{
  ℕ, String, ◌≡◌, refl, Bool, true, false, inl, inr, Option, none, some, List, [], ◌∷◌, select,
  ◌==◌, Bool-cases,
}
use a2a_platform_go.Llm.{
  ToolCall, ToolDef, Outcome, done, failed, StreamEvent, text, reasoning, tool_call, error, quiet,
  Heard,
}
use a2a_platform_go.Engine.{
  Config, progress, subagent_started, Effect, asked, ran, told, saved, recorded, session_created,
  subagent_run, Trace, Subagents, Env, Place,
}
use a2a_platform_go.Engine.Calls.{
  tell_ticks, runs_early, emit_progress, no_progress, context_of, redacted, subagent_ends, spawned,
  found_or_run, choose, call_tool_with_timeout, run_serially, spawn_agent, find_or_run, result_of,
  Results, pre_execute_all, pre_execute, record_trace,
}
use a2a_platform_go.Engine.Rounds.{listen}

abbrev pub is_quiet : Effect → Bool
is_quiet (asked request) = false
is_quiet (saved m) = false
is_quiet _ = true

abbrev pub IsKept : (Trace → Type 0) → Type 0
IsKept P = (e : Effect) (t : Trace) → is_quiet e ≡ true → P t → P (e ∷ t)

module _ (P : Trace → Type 0) (kept : IsKept P) where
  pub listen-Keeps :
      (events : List StreamEvent) (h : Heard) (t : Trace) → P t → P (listen events h t).1
  unfolding listen
  listen-Keeps [] h t p = p
  listen-Keeps (text s ∷ events) h t p = listen-Keeps events _ _ (kept _ t refl p)
  listen-Keeps (reasoning s ∷ events) h t p = listen-Keeps events _ _ (kept _ t refl p)
  listen-Keeps (tool_call call ∷ events) h t p = listen-Keeps events _ t p
  listen-Keeps (error e ∷ events) h t p = p
  listen-Keeps (quiet ∷ events) h t p = listen-Keeps events h t p

module _ (env : Env) (cfg : Config) (place : Place) (P : Trace → Type 0) (kept : IsKept P) where
  tell_ticks-Keeps :
      (tick : Trace → ℕ → Trace)
      → ((t : Trace) (n : ℕ) → P t → P (tick t n))
      → (ns : List ℕ) (t : Trace) → P t
      → P (tell_ticks env cfg place tick ns t)
  tell_ticks-Keeps tick k [] t p = p
  tell_ticks-Keeps tick k (n ∷ ns) t p = tell_ticks-Keeps tick k ns (tick t n) (k t n p)

  call_tool_with_timeout-Keeps :
      (tick : Trace → ℕ → Trace)
      → ((t : Trace) (n : ℕ) → P t → P (tick t n))
      → (call : ToolCall) (t : Trace) → P t
      → P (call_tool_with_timeout env cfg place tick call t).1
  unfolding call_tool_with_timeout
  call_tool_with_timeout-Keeps tick k call t p =
      let race = env.race t (context_of env cfg place call) call in
      let runs = ran (context_of env cfg place call) call in
      tell_ticks-Keeps tick k race.ticks (runs ∷ t) (kept runs t refl p)

  run_serially-Keeps : (call : ToolCall) (t : Trace) → P t → P (run_serially env cfg place call t).1
  unfolding run_serially
  run_serially-Keeps call t p =
      call_tool_with_timeout-Keeps (emit_progress env cfg place call)
        (λ u n q. kept (told (progress (redacted env cfg place call) n)) u refl q) call t p

  subagent_ends-Keeps :
      (call : ToolCall) (id : String) (o : Outcome String) (t : Trace)
      → P t
      → P (subagent_ends env cfg place call id o t).1
  subagent_ends-Keeps call id (done answer) t p = kept _ t refl p
  subagent_ends-Keeps call id (failed e) t p = kept _ t refl p

  spawned-Keeps :
      (subagents : Subagents) (call : ToolCall) (task context : String) (o : Option String)
      (t : Trace)
      → P t
      → P (spawned env cfg place subagents call task context o t).1
  spawned-Keeps subagents call task context none t p = run_serially-Keeps call t p
  spawned-Keeps subagents call task context (some id) t p =
      let started = told (subagent_started id (env.redact task) call.id) in
      let runs = subagent_run id task in
      subagent_ends-Keeps call id _ (runs ∷ started ∷ t)
        (kept runs (started ∷ t) refl (kept started t refl p))

  spawn_agent-Keeps :
      (subagents : Subagents) (call : ToolCall) (t : Trace)
      → P t
      → P (spawn_agent env cfg place subagents call t).1
  unfolding spawn_agent
  spawn_agent-Keeps subagents call t p =
      spawned-Keeps subagents call _ _ _ _ (kept (session_created _ _) t refl p)

  found_or_run-Keeps :
      (call : ToolCall) (o : Option (String × String)) (t : Trace)
      → P t
      → P (found_or_run env cfg place call o t).1
  found_or_run-Keeps call none t p = run_serially-Keeps call t p
  found_or_run-Keeps call (some early) t p = p

  find_or_run-Keeps :
      (early : Results) (call : ToolCall) (t : Trace)
      → P t
      → P (find_or_run env cfg place early call t).1
  unfolding find_or_run
  find_or_run-Keeps early call t p = found_or_run-Keeps call _ t p

  choose-Keeps :
      (o : Option Subagents) (early : Results) (call : ToolCall) (t : Trace)
      → P t
      → P (choose env cfg place o early call t).1
  choose-Keeps none early call t p = find_or_run-Keeps early call t p
  choose-Keeps (some subagents) early call t p = elim (Bool-cases (call.name == "spawn_agent")) [
    | inl spawns ↦ rw spawns (spawn_agent-Keeps subagents call t p)
    | inr other ↦ rw other (find_or_run-Keeps early call t p)
  ]

  pub result_of-Keeps :
      (early : Results) (call : ToolCall) (t : Trace)
      → P t
      → P (result_of env cfg place early call t).1
  unfolding result_of
  result_of-Keeps early call t p = choose-Keeps env.subagents early call t p

  pre_execute_all-Keeps :
      (calls : List ToolCall) (early : Results) (t : Trace)
      → P t
      → P (pre_execute_all env cfg place calls early t).1
  unfolding pre_execute_all
  pre_execute_all-Keeps [] early t p = p
  pre_execute_all-Keeps (call ∷ calls) early t p =
      pre_execute_all-Keeps calls _ _
        (call_tool_with_timeout-Keeps (no_progress env cfg place) (λ u n q. q) call t p)

  pub pre_execute-Keeps :
      (tools : List ToolDef) (calls : List ToolCall) (t : Trace)
      → P t
      → P (pre_execute env cfg place tools calls t).1
  unfolding pre_execute
  pre_execute-Keeps tools calls t p =
      pre_execute_all-Keeps (env.order (select (runs_early env cfg place tools) calls)) [] t p

  pub record_trace-Keeps :
      (call : ToolCall) (t : Trace) → P t → P (record_trace env cfg place call t)
  record_trace-Keeps call t p = elim (Bool-cases env.records) [
    | inl yes_records ↦ rw yes_records (kept (recorded (env.trace_data call)) t refl p)
    | inr no_records ↦ rw no_records p
  ]
