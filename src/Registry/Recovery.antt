-- ===== src/Registry/Recovery.antt =====
-- The second phase of a health check: agents that answer again are connected again.
use a2a_platform_go.Prelude.{
  String, ◌≡◌, refl, sym, ◌∙◌, Bool, true, false, Option, none, some, List, [], ◌∷◌, ◌++◌, ◌==◌,
  is_some, find, delete, Option-cases, Bool-cases, inl, inr, eq_refl,
}
use a2a_platform_go.Llm.{Outcome, done, failed}
use a2a_platform_go.Sql.{World, Result, ok, err}
use a2a_platform_go.Sql as Sql
use a2a_platform_go.Registry.Cards.{AgentCard, Codec, parse_stored_static_card}
use a2a_platform_go.Registry.Agents.{Agent, Table, list}
use a2a_platform_go.Registry.{AgentConnection, Registry, Net, is_key, put, get_client, connect}
use a2a_platform_go.Registry.Health.{
  reconnected, try_stored, needs_nothing, try_reconnect, phase_a, phase_b, listed, run_health_check,
  health_of, static_again, fetched_again,
}
use a2a_platform_go.Registry.Consecutive.{is_connected, find-delete_other}

abbrev pub is_done : {A : Type 0} → Outcome A → Bool
is_done (done a) = true
is_done (failed e) = false

connected-put :
    (name other : String) (conn : AgentConnection) (entries : List (String × AgentConnection))
    → is_some (find (is_key name) entries) ≡ true
    → is_some (find (is_key name) (put other conn entries)) ≡ true
unfolding find put delete
connected-put name other conn entries h = elim (Bool-cases (other == name)) [
  | inl same ↦ rw same refl
  | inr differ ↦ rw differ (rw (find-delete_other name other entries differ) h)
]

module _ (sql : Sql.Env) (codec : Codec) where
  abbrev answers_to : Net → Agent → Option AgentCard → Bool
  answers_to net a (some card) = is_done (health_of sql codec net card)
  answers_to net a none = is_done (net.fetch_agent_card a.url)

  -- The agent answers: its card is stored and it is in good health, or its card can be fetched.
  unfoldable pub answers_again : Net → Agent → Bool
  unfolding parse_stored_static_card
  answers_again net a = answers_to net a (parse_stored_static_card codec a.agent_card_json)

  reconnected-connected :
      (a : Agent) (card : AgentCard) (r : Registry)
      → is_connected a.name (reconnected sql codec a card r) ≡ true
  unfolding reconnected get_client connect put find
  reconnected-connected a card r = rw (eq_refl a.name) refl

  pub connected-found :
      (name : String) (r : Registry)
      → is_some (find (is_key name) r.connections) ≡ is_connected name r
  unfolding get_client
  connected-found name r = elim (Option-cases (find (is_key name) r.connections)) [
    | inl nothing ↦ rw nothing refl
    | inr (entry, e) ↦ rw e refl
  ]

  reconnected-kept :
      (name : String) (a : Agent) (card : AgentCard) (r : Registry)
      → is_connected name r ≡ true
      → is_connected name (reconnected sql codec a card r) ≡ true
  unfolding reconnected get_client connect
  reconnected-kept name a card r h =
      let conn : AgentConnection = record { card = card; url = a.url } in
      sym (connected-found name (reconnected sql codec a card r))
      ∙ connected-put name a.name conn r.connections (connected-found name r ∙ h)

  static_again-kept :
      (name : String) (a : Agent) (card : AgentCard) (o : Outcome (Unit {0})) (r : Registry)
      → is_connected name r ≡ true
      → is_connected name (static_again sql codec a card o r) ≡ true
  static_again-kept name a card (done _) r h = reconnected-kept name a card r h
  static_again-kept name a card (failed e) r h = h

  fetched_again-kept :
      (name : String) (a : Agent) (o : Outcome AgentCard) (r : Registry)
      → is_connected name r ≡ true
      → is_connected name (fetched_again sql codec a o r) ≡ true
  fetched_again-kept name a (done card) r h = reconnected-kept name a _ r h
  fetched_again-kept name a (failed e) r h = h

  try_stored-kept :
      (net : Net) (name : String) (a : Agent) (stored : Option AgentCard) (r : Registry)
      → is_connected name r ≡ true
      → is_connected name (try_stored sql codec net a stored r) ≡ true
  try_stored-kept net name a none r h = fetched_again-kept name a _ r h
  try_stored-kept net name a (some card) r h = static_again-kept name a card _ r h

  try_reconnect-kept :
      (net : Net) (name : String) (a : Agent) (r : Registry)
      → is_connected name r ≡ true
      → is_connected name (try_reconnect sql codec net a r) ≡ true
  unfolding try_reconnect
  try_reconnect-kept net name a r h = elim (Bool-cases (needs_nothing sql codec a)) [
    | inl idle ↦ rw idle h
    | inr lost ↦
        rw lost (try_stored-kept net name a (parse_stored_static_card codec a.agent_card_json) r h)
  ]

  pub phase_b-kept :
      (net : Net) (name : String) (records : List Agent) (r : Registry)
      → is_connected name r ≡ true
      → is_connected name (phase_b sql codec net records r) ≡ true
  unfolding phase_b
  phase_b-kept net name [] r h = h
  phase_b-kept net name (a ∷ records) r h =
      phase_b-kept net name records (try_reconnect sql codec net a r)
        (try_reconnect-kept net name a r h)

  static_again-connected :
      (a : Agent) (card : AgentCard) (o : Outcome (Unit {0})) (r : Registry)
      → is_done o ≡ true
      → is_connected a.name (static_again sql codec a card o r) ≡ true
  static_again-connected a card (done _) r h = reconnected-connected a card r
  static_again-connected a card (failed e) r h = cc

  fetched_again-connected :
      (a : Agent) (o : Outcome AgentCard) (r : Registry)
      → is_done o ≡ true
      → is_connected a.name (fetched_again sql codec a o r) ≡ true
  fetched_again-connected a (done card) r h = reconnected-connected a _ r
  fetched_again-connected a (failed e) r h = cc

  try_stored-connected :
      (net : Net) (a : Agent) (stored : Option AgentCard) (r : Registry)
      → answers_to net a stored ≡ true
      → is_connected a.name (try_stored sql codec net a stored r) ≡ true
  try_stored-connected net a none r h = fetched_again-connected a _ r h
  try_stored-connected net a (some card) r h = static_again-connected a card _ r h

  phase_b-connected :
      (net : Net) (a : Agent) (before after : List Agent) (r : Registry)
      → needs_nothing sql codec a ≡ false
      → answers_again net a ≡ true
      → is_connected a.name (phase_b sql codec net (before ++ a ∷ after) r) ≡ true
  unfolding phase_b try_reconnect answers_again
  phase_b-connected net a [] after r lost up =
      phase_b-kept net a.name after (try_reconnect sql codec net a r) (
        rw lost
          (try_stored-connected net a (parse_stored_static_card codec a.agent_card_json) r up))
  phase_b-connected net a (b ∷ before) after r lost up =
      phase_b-connected net a before after (try_reconnect sql codec net b r) lost up

  listed-connected :
      (net : Net) (a : Agent) (before after : List Agent) (r : Registry)
      (result : Result (List Agent) × World Table)
      → result.0 ≡ ok (before ++ a ∷ after)
      → needs_nothing sql codec a ≡ false
      → answers_again net a ≡ true
      → is_connected a.name (listed sql codec net r result) ≡ true
  listed-connected net a before after r (err e, w) found lost up = cc
  listed-connected net a before after r (ok records, w) found lost up =
      let same : records ≡ before ++ a ∷ after = cc in
      rw same (phase_b-connected net a before after (record r { world = w }) lost up)

  -- A health check connects each external agent that it finds in the table without being connected
  -- there, if the agent answers.
  pub run_health_check-connected :
      (net : Net) (a : Agent) (before after : List Agent) (r : Registry)
      → (list "" sql (phase_a sql codec net r.connections r).world).0 ≡ ok (before ++ a ∷ after)
      → needs_nothing sql codec a ≡ false
      → answers_again net a ≡ true
      → is_connected a.name (run_health_check sql codec net r) ≡ true
  unfolding run_health_check
  run_health_check-connected net a before after r found lost up =
      let first = phase_a sql codec net r.connections r in
      listed-connected net a before after first (list "" sql first.world) found lost up
