-- ===== src/Registry.antt =====
-- internal/svc/registry.go: the agents that the platform is connected to, in memory and in the table,
-- and the checks by which a connection is given up or found again.
pub mod Cards
pub mod Agents
pub mod Health
pub mod Metadata
pub mod Consecutive
pub mod Secret
pub mod Recovery
pub mod Checks
pub mod Steady
mod Tests
use Prim.Native.String.{◌++◌}
use a2a_platform_go.Prelude.{
  ℕ, String, Bool, true, false, not, ◌&&◌, Option, none, some, List, [], ◌∷◌, ◌==◌, ◌=?◌, find,
  delete, if◌then◌else◌, length,
}
use a2a_platform_go.Prelude.Text.{trim_space}
use a2a_platform_go.Llm.{Outcome, done, failed}
use a2a_platform_go.Sql.{World, Result, ok, err}
use a2a_platform_go.Sql as Sql
use a2a_platform_go.Registry.Cards.{
  AgentCard, AgentCapabilities, Skill, Codec, merge_context_mode, normalize_context_mode,
  normalize_agent_card, hosted_agent_card, bare_card, or_skills, parse_agent_card,
  parse_stored_static_card, context_mode_from_card_json,
}
use a2a_platform_go.Registry.Agents.{Agent, Table, upsert, get, list, update_status}

pub record AgentConnection : Type 0 where
  pub card : AgentCard
  pub url : String

-- What is told to the event stream: the agent, its status and its type.
pub record Notice : Type 0 where
  pub name : String
  pub status : String
  pub type_name : String

-- AgentRegistry: the two maps as association lists; the notices are kept newest first.
pub record Registry : Type 0 where
  pub connections : List (String × AgentConnection)
  pub fail_counts : List (String × ℕ)
  pub world : World Table
  pub notices : List Notice

-- What the network answers during one call: the card at an address, whether a card's address or a
-- health address answers with 200. An error is the text of the reason.
pub record Net : Type 0 where
  pub fetch_agent_card : String → Outcome AgentCard
  pub reach_agent_card : String → Outcome (Unit {0})
  pub check_health_url : String → Outcome (Unit {0})

-- A map's entries.
abbrev pub is_key {ℓ} : {V : Type ℓ} → String → String × V → Bool
is_key name entry = entry.0 == name

unfoldable pub put {ℓ} : {V : Type ℓ} → String → V → List (String × V) → List (String × V)
unfolding delete
put name v entries = (name, v) ∷ delete (is_key name) entries

abbrev value_of {ℓ} : {V : Type ℓ} → Option (String × V) → Option V
value_of none = none
value_of (some entry) = some entry.1

-- GetClient
unfoldable pub get_client : String → Registry → Option AgentConnection
unfolding find
get_client name r = value_of (find (is_key name) r.connections)

unfoldable pub connect : String → AgentConnection → Registry → Registry
unfolding put
connect name conn r = record r { connections = put name conn r.connections }

unfoldable pub disconnect : String → Registry → Registry
unfolding delete
disconnect name r = record r { connections = delete (is_key name) r.connections }

unfoldable pub forget_failures : String → Registry → Registry
unfolding delete
forget_failures name r = record r { fail_counts = delete (is_key name) r.fail_counts }

abbrev pub notify : String → String → String → Registry → Registry
notify name status type_name r = record r {
  notices = record { name = name; status = status; type_name = type_name } ∷ r.notices;
}

module _ (sql : Sql.Env) (codec : Codec) where
  abbrev pub agent_record :
      String → String → String → ℕ → List Skill → AgentCard → String → ℕ → Agent
  agent_record name type_name url port skills card secret now = record {
    name = name;
    type_name = type_name;
    url = url;
    port = port;
    skills_json = codec.encode_skills (or_skills card.skills skills);
    status = "connected";
    connected_at = some now;
    agent_card_json = codec.encode_card card;
    error_message = none;
    secret = secret;
  }

  abbrev pub persisted :
      String
      → Agent
      → AgentCard
      → Registry
      → Result (Unit {0}) × World Table
      → Outcome AgentConnection × Registry
  persisted name a card r (err e, w) = (failed "DB persist error", record r { world = w })
  persisted name a card r (ok _, w) =
      let conn : AgentConnection = record { card = card; url = a.url } in
      (done conn, notify name "connected" a.type_name (connect name conn (record r { world = w })))

  -- The record is written; where the store refuses it, no connection is made.
  unfoldable pub persist :
      String → Agent → AgentCard → Registry → Outcome AgentConnection × Registry
  unfolding upsert connect
  persist name a card r = persisted name a card r (upsert a sql r.world)

  abbrev health_passed : AgentCard → Outcome (Unit {0}) → Outcome AgentCard
  health_passed card (done _) = done card
  health_passed card (failed e) = failed ("health check failed: " ++ e)

  unfoldable pub check_health : Net → AgentCard → Outcome AgentCard
  check_health net card =
      if card.health_url == ""
      then done card
      else health_passed card (net.check_health_url card.health_url)

  abbrev pinged : AgentCard → Outcome (Unit {0}) → Outcome AgentCard
  pinged card (done _) = done card
  pinged card (failed e) = failed ("Agent unreachable: " ++ e)

  abbrev fetched :
      Net → String → String → List Skill → String → Outcome AgentCard → Outcome AgentCard
  fetched net name url skills mode (failed e) = failed ("Cannot fetch agent card: " ++ e)
  fetched net name url skills mode (done card) =
      pinged
        (normalize_agent_card name skills
          (record card { context_mode = merge_context_mode mode card.context_mode }))
        (net.reach_agent_card url)

  -- The card of an agent that registers: its own, hosted by the platform, or the one at its address.
  unfoldable pub discover_card :
      Net → String → String → List Skill → String → Option AgentCard → Outcome AgentCard
  unfolding check_health normalize_agent_card merge_context_mode
  discover_card net name url skills mode none =
      fetched net name url skills mode (net.fetch_agent_card url)
  discover_card net name url skills mode (some card) = check_health net (
      normalize_agent_card name skills
        (record card { static = true; context_mode = merge_context_mode mode card.context_mode }))

  abbrev pub or_external : String → String
  or_external type_name = if type_name == "" then "external" else type_name

  abbrev pub with_card :
      String
      → String
      → String
      → ℕ
      → List Skill
      → String
      → Registry
      → Outcome AgentCard
      → Outcome AgentConnection × Registry
  with_card name type_name url port skills secret r (failed e) = (failed e, r)
  with_card name type_name url port skills secret r (done card) =
      persist name
        (agent_record name (or_external type_name) url port skills card secret r.world.now) card r

  -- A name that is taken is registered again only with its secret, which is not empty.
  abbrev pub may_register : String → Option Agent → Bool
  may_register secret none = true
  may_register secret (some existing) = not (secret == "") && existing.secret == secret

  abbrev pub register_found :
      Net
      → String
      → String
      → String
      → ℕ
      → List Skill
      → String
      → String
      → Option AgentCard
      → Registry
      → Result (Option Agent) × World Table
      → Outcome AgentConnection × Registry
  register_found net name type_name url port skills secret mode provided r (err e, w) =
      (failed "DB error", record r { world = w })
  register_found net name type_name url port skills secret mode provided r (ok existing, w) =
      if may_register secret existing
      then (if url == ""
          then (failed "missing url", record r { world = w })
          else with_card name type_name url port skills secret (record r { world = w })
              (discover_card net name url skills mode provided))
      else (failed ("Agent '" ++ name ++ "' already registered"), record r { world = w })

  -- RegisterAgent; what the error of the store says is left out.
  unfoldable pub register_agent :
      Net
      → String
      → String
      → String
      → ℕ
      → List Skill
      → String
      → String
      → Option AgentCard
      → Registry
      → Outcome AgentConnection × Registry
  unfolding get discover_card persist
  register_agent net name type_name url port skills secret mode provided r =
      register_found net name type_name url port skills secret mode provided r
        (get name sql r.world)

  abbrev disconnected :
      String → Registry → Result (Unit {0}) × World Table → Outcome (Unit {0}) × Registry
  disconnected name r (err e, w) = (failed "", record r { world = w })
  disconnected name r (ok _, w) = (
    done tt,
    notify name "disconnected" "" (forget_failures name (disconnect name (record r { world = w }))),
  )

  -- DisconnectAgent
  unfoldable pub disconnect_agent : String → Registry → Outcome (Unit {0}) × Registry
  unfolding update_status disconnect forget_failures
  disconnect_agent name r = disconnected name r (update_status name "disconnected" none sql r.world)

  abbrev mode_of_record : Result (Option Agent) → String
  mode_of_record (ok (some a)) = context_mode_from_card_json codec a.agent_card_json
  mode_of_record _ = "context"

  abbrev mode_of : String → Registry → Option AgentConnection → String
  mode_of name r (some conn) = normalize_context_mode conn.card.context_mode
  mode_of name r none = mode_of_record (get name sql r.world).0

  -- GetContextMode
  unfoldable pub get_context_mode : String → Registry → String
  unfolding get_client get
  get_context_mode name r = mode_of name r (get_client name r)

  -- RegisterBuiltinAgent
  unfoldable pub register_builtin_agent :
      String → String → List Skill → Registry → Outcome AgentConnection × Registry
  unfolding persist
  register_builtin_agent name description skills r =
      let card = record (bare_card name) { description = description; context_mode = "context" } in
      let row = agent_record name "builtin" "" 0 [] card "" r.world.now in
      persist name (record row { skills_json = codec.encode_skills skills }) card r

  -- CountConnected
  abbrev pub count_connected : Registry → ℕ
  count_connected r = length r.connections
