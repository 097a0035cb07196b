-- ===== src/Engine/Stored.antt =====
-- The messages that a run leaves in the store, as the next run in the same context loads them.
use a2a_platform_go.Prelude.{
  not, ◌&&◌, all, all-All, String, ◌≡◌, refl, ◌∙◌, sym, ap, Bool, true, false, Option, some, List,
  [], ◌∷◌, ◌++◌, All, arith, ◌==◌, eq_refl,
}
use mathlib.Core.List.{append_assoc, append-nil}
use a2a_platform_go.Llm.{
  ToolCall, ChatMessage, Heard, Message, Outcome, done, failed, chat_message, build_chat_history,
  keep_message,
}
use a2a_platform_go.Llm.Paired.{awaits, awaits-append}
use a2a_platform_go.Engine.{
  Config, Effect, asked, ran, told, saved, recorded, session_created, subagent_run, Trace, Env,
  Place, save,
}
use a2a_platform_go.Engine.Calls.{tool_row}
use a2a_platform_go.Engine.Rounds.{request, agent_row, redact_tool_calls, run_loop, max_rounds}
use a2a_platform_go.Engine.Quiet.{IsKept, is_quiet}
use a2a_platform_go.Engine.Kept.{Property, ids, Moves, Ended, rounds-Ended}

abbrev row_of : Effect → List Message
row_of (saved m) = m ∷ []
row_of _ = []

-- The stored messages, the oldest first.
unfoldable pub saved_rows : Trace → List Message
saved_rows [] = []
saved_rows (e ∷ t) = saved_rows t ++ row_of e

-- A stored answer of a tool names the call that it answers.
abbrev pub is_named : Effect → Bool
is_named (saved m) = not (m.role == "tool" && m.tool_call_id == "")
is_named _ = true

abbrev pub IsNamed : Effect → Type 0
IsNamed e = is_named e ≡ true

module _ (parse : String → Option (List ToolCall)) where
  keep_message-append :
      (m : ChatMessage) (xs ys : List ChatMessage)
      → keep_message m (xs ++ ys) ≡ keep_message m xs ++ ys
  keep_message-append m xs ys = ground arith

  pub build_chat_history-append :
      (xs ys : List Message)
      → build_chat_history parse (xs ++ ys)
        ≡ build_chat_history parse xs ++ build_chat_history parse ys
  unfolding build_chat_history
  build_chat_history-append [] ys = refl
  build_chat_history-append (x ∷ xs) ys =
      ap (keep_message (chat_message parse x)) (build_chat_history-append xs ys)
      ∙ keep_message-append (chat_message parse x) _ _

  -- The calls that await an answer in what is loaded.
  unfoldable pub left_open : List Message → Option (List String)
  left_open rows = awaits (some []) (build_chat_history parse rows)

  left_open-append :
      (rows more : List Message)
      → left_open (rows ++ more) ≡ awaits (left_open rows) (build_chat_history parse more)
  unfolding left_open
  left_open-append rows more =
      ap (awaits (some [])) (build_chat_history-append rows more)
      ∙ awaits-append (some []) (build_chat_history parse rows) (build_chat_history parse more)

  abbrev Stored : List Message → Property
  Stored loaded awaited messages t =
      All IsNamed t → left_open (loaded ++ saved_rows t) ≡ some awaited

row_of-quiet : (e : Effect) → is_quiet e ≡ true → row_of e ≡ []
row_of-quiet (asked r) q = refl
row_of-quiet (saved m) q = cc
row_of-quiet (ran context call) q = refl
row_of-quiet (told sse) q = refl
row_of-quiet (recorded line) q = refl
row_of-quiet (session_created task context) q = refl
row_of-quiet (subagent_run id task) q = refl

saved_rows-same :
    (loaded : List Message) (e : Effect) (t : Trace)
    → row_of e ≡ []
    → loaded ++ saved_rows (e ∷ t) ≡ loaded ++ saved_rows t
unfolding saved_rows
saved_rows-same loaded e t q =
    ap (λ rows. loaded ++ (saved_rows t ++ rows)) q
    ∙ ap (λ rows. loaded ++ rows) (append-nil (saved_rows t))

ids-redact :
    (env : Env) (cfg : Config) (place : Place) (calls : List ToolCall)
    → ids (redact_tool_calls env cfg place calls) ≡ ids calls
unfolding redact_tool_calls
ids-redact env cfg place [] = refl
ids-redact env cfg place (call ∷ calls) = ap (λ is. call.id ∷ is) (ids-redact env cfg place calls)

module _ (env : Env) (cfg : Config) (place : Place) (parse : String → Option (List ToolCall))
    (loaded : List Message) (saves : (m : Message) (t : Trace) → env.saves m t ≡ true)
    (parse_encode : (calls : List ToolCall) → parse (env.encode calls) ≡ some calls)
    (encode_text : (calls : List ToolCall) → (env.encode calls == "") ≡ false) where
  abbrev kept : Property
  kept = Stored parse loaded

  quiet-Stored :
      (awaited : List String) (messages : List ChatMessage) → IsKept (kept awaited messages)
  quiet-Stored awaited messages e t q p named =
      ap (left_open parse) (saved_rows-same loaded e t (row_of-quiet e q)) ∙ p named.1

  save-Stored :
      (m : Message) (before after : List String) (messages : List ChatMessage) (t : Trace)
      → (IsNamed (saved m) → awaits (some before) (build_chat_history parse (m ∷ [])) ≡ some after)
      → kept before messages t
      → kept after messages (save env m t)
  unfolding save saved_rows
  save-Stored m before after messages t k p = rw (saves m t) λ named.
      ap (left_open parse) (sym (append_assoc loaded (saved_rows t) (m ∷ [])))
      ∙ left_open-append parse (loaded ++ saved_rows t) (m ∷ [])
      ∙ ap (λ o. awaits o (build_chat_history parse (m ∷ []))) (p named.1)
      ∙ k named.0

  tool_row_lem :
      (call : ToolCall) (text : String) (awaited : List String)
      → IsNamed (saved (tool_row env cfg place call text))
      → awaits
          (some (call.id ∷ awaited))
          (build_chat_history parse (tool_row env cfg place call text ∷ []))
        ≡ some awaited
  unfolding build_chat_history chat_message awaits
  tool_row_lem call text awaited named =
      let present : (call.id == "") ≡ false = ground (arith, named) in
      rw present (rw (eq_refl call.id) refl)

  agent_row_lem :
      (h : Heard)
      → awaits (some []) (
          build_chat_history parse (
            agent_row env cfg place h (env.encode (redact_tool_calls env cfg place h.tool_calls))
            ∷ []))
        ≡ some (ids h.tool_calls)
  unfolding build_chat_history chat_message awaits
  agent_row_lem h =
      let calls = redact_tool_calls env cfg place h.tool_calls in
      rw (encode_text calls)
        (rw (parse_encode calls) (ap some (ids-redact env cfg place h.tool_calls)))

  reply_row_lem :
      (h : Heard)
      → awaits (some []) (build_chat_history parse (agent_row env cfg place h "" ∷ [])) ≡ some []
  unfolding build_chat_history chat_message awaits
  reply_row_lem h = refl

  Stored-Moves : Moves env cfg place kept
  Stored-Moves = record {
    quiet_kept = quiet-Stored;
    answered = λ call text awaited messages t p.
        save-Stored (tool_row env cfg place call text) (call.id ∷ awaited) awaited messages t
          (tool_row_lem call text awaited) p;
    called = λ h messages t p.
        save-Stored
          (agent_row env cfg place h (env.encode (redact_tool_calls env cfg place h.tool_calls))) []
          (ids h.tool_calls) messages t (λ named. agent_row_lem h) p;
  }

  Ended-done :
      (r : Outcome String × Trace) (reply : String) (u : Trace)
      → Ended kept r
      → r ≡ (done reply, u)
      → All IsNamed u
      → left_open parse (loaded ++ saved_rows u) ≡ some []
  Ended-done (done other, t) reply u (messages, p) same named =
      let at_end : t ≡ u = ap (λ r. r.1) same in rw (sym at_end) (p (rw at_end named))
  Ended-done (failed e, t) reply u (awaited, messages, p) same named =
      let wrong : failed e ≡ done reply = ap (λ r. r.0) same in cc

  -- Where the store takes every message of a run, the run starts behind stored messages whose calls
  -- of tools are all answered, it ends with a reply and each stored answer of a tool names its call,
  -- and where the messages are loaded in the order in which they were stored, the history that is
  -- made of them is again one whose calls are all answered. Encoded calls are read back as they were
  -- and are no empty text.
  pub run_loop-left_open :
      (messages : List ChatMessage) (t u : Trace) (reply : String) (rows : List Message)
      → left_open parse (loaded ++ saved_rows t) ≡ some []
      → run_loop env cfg place messages t ≡ (done reply, u)
      → all is_named u ≡ true
      → rows ≡ loaded ++ saved_rows u
      → left_open parse rows ≡ some []
  unfolding run_loop
  run_loop-left_open messages t u reply rows before ends named in_order =
      ap (left_open parse) in_order
      ∙ Ended-done (run_loop env cfg place messages t) reply u
          (rounds-Ended env cfg place kept Stored-Moves
            (λ ms tools v p named_too.
              ap (left_open parse)
                (saved_rows-same loaded (asked (request env cfg place ms tools)) v refl)
              ∙ p named_too.1)
            (λ h ms v p.
              save-Stored (agent_row env cfg place h "") [] [] ms v (λ own. reply_row_lem h) p)
            (max_rounds env cfg place) 0 messages t (λ all. before))
          ends (all-All is_named u named)
