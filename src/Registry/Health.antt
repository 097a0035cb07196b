-- ===== src/Registry/Health.antt =====
-- internal/svc/registry.go: the health check, in its two phases, and the connections that are made
-- again when the platform starts.
use a2a_platform_go.Prelude.{
  ℕ, ◌+◌, String, Bool, ◌||◌, Option, none, some, List, [], ◌∷◌, ◌==◌, leb, find, if◌then◌else◌,
}
use a2a_platform_go.Llm.{Outcome, done, failed}
use a2a_platform_go.Sql.{World, Result, ok, err}
use a2a_platform_go.Sql as Sql
use a2a_platform_go.Registry.Cards.{
  AgentCard, Codec, normalize_agent_card, parse_stored_static_card,
}
use a2a_platform_go.Registry.Agents.{Agent, Table, list, update_status}
use a2a_platform_go.Registry.{
  AgentConnection, Registry, Net, is_key, put, connect, disconnect, forget_failures, notify,
}

abbrev count_of : Option (String × ℕ) → ℕ
count_of none = 0
count_of (some entry) = entry.1

-- failCounts[name]
unfoldable pub failures : String → Registry → ℕ
unfolding find
failures name r = count_of (find (is_key name) r.fail_counts)

-- What the check of a connected agent finds: all is well, or its new status and the reason.
pub data Verdict : Type 0 where
  healthy : Verdict
  failing : String → String → Verdict

module _ (sql : Sql.Env) (codec : Codec) where
  abbrev pub set_status : String → String → Option String → Registry → Registry
  set_status name status message r = record r {
    world = (update_status name status message sql r.world).1;
  }

  abbrev pub count_failure : String → Registry → Registry
  count_failure name r = record r { fail_counts = put name (failures name r + 1) r.fail_counts }

  -- recordFailure
  unfoldable pub record_failure : String → String → String → Registry → Registry
  unfolding failures put disconnect update_status
  record_failure name status reason r =
      let counted = count_failure name r in
      if leb 3 (failures name r + 1)
      then notify name status "" (set_status name status (some reason) (disconnect name counted))
      else counted

  unfoldable pub apply_verdict : String → Verdict → Registry → Registry
  unfolding record_failure forget_failures
  apply_verdict name healthy r = forget_failures name r
  apply_verdict name (failing status reason) r = record_failure name status reason r

  abbrev health_verdict : Outcome (Unit {0}) → Verdict
  health_verdict (done _) = healthy
  health_verdict (failed e) = failing "unreachable" e

  abbrev check_health_url : Net → AgentCard → Verdict
  check_health_url net card =
      if card.health_url == ""
      then healthy
      else health_verdict (net.check_health_url card.health_url)

  abbrev bridge_verdict : Net → AgentCard → Outcome (Unit {0}) → Verdict
  bridge_verdict net card (failed e) = failing "offline" e
  bridge_verdict net card (done _) = check_health_url net card

  -- The check of one connected agent that is not built in.
  unfoldable pub verdict : Net → AgentConnection → Verdict
  verdict net conn =
      if conn.card.static
      then check_health_url net conn.card
      else bridge_verdict net conn.card (net.reach_agent_card conn.url)

  -- Phase A, over the connections as they were when it began.
  unfoldable pub phase_a : Net → List (String × AgentConnection) → Registry → Registry
  unfolding apply_verdict verdict
  phase_a net [] r = r
  phase_a net ((name, conn) ∷ entries) r =
      phase_a net entries (if conn.url == "" then r else apply_verdict name (verdict net conn) r)

  unfoldable pub reconnected : Agent → AgentCard → Registry → Registry
  unfolding connect forget_failures update_status
  reconnected a card r = notify a.name "connected" a.type_name (
      set_status a.name "connected" none
        (forget_failures a.name (connect a.name (record { card = card; url = a.url }) r)))

  abbrev pub static_again : Agent → AgentCard → Outcome (Unit {0}) → Registry → Registry
  static_again a card (failed e) r = r
  static_again a card (done _) r = reconnected a card r

  abbrev pub fetched_again : Agent → Outcome AgentCard → Registry → Registry
  fetched_again a (failed e) r = r
  fetched_again a (done card) r = reconnected a (normalize_agent_card a.name [] card) r

  abbrev pub health_of : Net → AgentCard → Outcome (Unit {0})
  health_of net card =
      if card.health_url == "" then done tt else net.check_health_url card.health_url

  abbrev pub try_stored : Net → Agent → Option AgentCard → Registry → Registry
  try_stored net a (some card) r = static_again a card (health_of net card) r
  try_stored net a none r = fetched_again a (net.fetch_agent_card a.url) r

  abbrev pub needs_nothing : Agent → Bool
  needs_nothing a = a.status == "connected" || a.status == "online" || a.type_name == "builtin"

  -- Phase B for one record.
  unfoldable pub try_reconnect : Net → Agent → Registry → Registry
  unfolding reconnected parse_stored_static_card normalize_agent_card
  try_reconnect net a r =
      if needs_nothing a
      then r
      else try_stored net a (parse_stored_static_card codec a.agent_card_json) r

  unfoldable pub phase_b : Net → List Agent → Registry → Registry
  unfolding try_reconnect
  phase_b net [] r = r
  phase_b net (a ∷ records) r = phase_b net records (try_reconnect net a r)

  abbrev pub listed : Net → Registry → Result (List Agent) × World Table → Registry
  listed net r (err e, w) = record r { world = w }
  listed net r (ok records, w) = phase_b net records (record r { world = w })

  abbrev pub second_phase : Net → Registry → Registry
  second_phase net r = listed net r (list "" sql r.world)

  -- runHealthCheck, in a context that is not canceled meanwhile.
  unfoldable pub run_health_check : Net → Registry → Registry
  unfolding phase_a phase_b list
  run_health_check net r = second_phase net (phase_a net r.connections r)

  abbrev restore_static : Agent → AgentCard → Outcome (Unit {0}) → Registry → Registry
  restore_static a card (failed e) r = set_status a.name "disconnected" none r
  restore_static a card (done _) r = connect a.name (record { card = card; url = a.url }) r

  abbrev restore_fetched : Agent → Outcome AgentCard → Registry → Registry
  restore_fetched a (failed e) r = set_status a.name "disconnected" none r
  restore_fetched a (done card) r =
      connect a.name (record { card = normalize_agent_card a.name [] card; url = a.url }) r

  abbrev restore_stored : Net → Agent → Option AgentCard → Registry → Registry
  restore_stored net a (some card) r = restore_static a card (health_of net card) r
  restore_stored net a none r = restore_fetched a (net.fetch_agent_card a.url) r

  unfoldable pub restore_all : Net → List Agent → Registry → Registry
  unfolding connect update_status parse_stored_static_card normalize_agent_card
  restore_all net [] r = r
  restore_all net (a ∷ records) r = restore_all net records (
      if a.type_name == "builtin" || a.url == ""
      then r
      else restore_stored net a (parse_stored_static_card codec a.agent_card_json) r)

  abbrev restored : Net → Registry → Result (List Agent) × World Table → Registry
  restored net r (err e, w) = record r { world = w }
  restored net r (ok records, w) = restore_all net records (record r { world = w })

  -- RestoreConnections
  unfoldable pub restore_connections : Net → Registry → Registry
  unfolding list restore_all
  restore_connections net r = restored net r (list "connected" sql r.world)
