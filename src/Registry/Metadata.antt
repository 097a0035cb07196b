-- ===== src/Registry/Metadata.antt =====
-- internal/svc/registry.go: the change of an external agent's address and card, and its public card.
use Prim.Native.String.{◌++◌}
use a2a_platform_go.Prelude.{ℕ, String, true, Option, none, some, List, ◌==◌, ◌=?◌, if◌then◌else◌}
use a2a_platform_go.Prelude.Text.{trim_space}
use a2a_platform_go.Llm.{Outcome, done, failed}
use a2a_platform_go.Sql.{World, Result, ok, err}
use a2a_platform_go.Sql as Sql
use a2a_platform_go.Registry.Cards.{
  AgentCard, Skill, Codec, merge_context_mode, normalize_agent_card, hosted_agent_card, bare_card,
  parse_agent_card,
}
use a2a_platform_go.Registry.Agents.{Agent, Table, get}
use a2a_platform_go.Registry.{
  AgentConnection, Registry, Net, get_client, agent_record, persist, check_health,
}

module _ (sql : Sql.Env) (codec : Codec) where
  -- The card that is changed: the caller's, the stored one, or a new one.
  abbrev pub card_to_edit : String → Option AgentCard → Option AgentCard → AgentCard
  card_to_edit name (some provided) stored = provided
  card_to_edit name none (some stored) = stored
  card_to_edit name none none = bare_card name

  abbrev pub edited_card : String → List Skill → String → AgentCard → AgentCard
  edited_card name skills mode card =
      normalize_agent_card name skills
        (record card { static = true; context_mode = merge_context_mode mode card.context_mode })

  abbrev with_card :
      String
      → Agent
      → String
      → ℕ
      → List Skill
      → Registry
      → Outcome AgentCard
      → Outcome AgentConnection × Registry
  with_card name existing url port skills r (failed e) = (failed e, r)
  with_card name existing url port skills r (done card) =
      let row =
        agent_record sql codec existing.name existing.type_name url port skills card existing.secret
          r.world.now in
      persist sql codec name row card r

  abbrev edit_found :
      Net
      → String
      → String
      → ℕ
      → List Skill
      → String
      → Option AgentCard
      → Registry
      → Result (Option Agent) × World Table
      → Outcome AgentConnection × Registry
  edit_found net name url port skills mode provided r (err e, w) =
      (failed "DB error", record r { world = w })
  edit_found net name url port skills mode provided r (ok none, w) =
      (failed ("agent \"" ++ name ++ "\" not found"), record r { world = w })
  edit_found net name url port skills mode provided r (ok (some existing), w) =
      if existing.type_name == "builtin"
      then (
        failed "builtin agent metadata is managed by builtin agent config",
        record r { world = w },
      )
      else with_card name existing (if trim_space url == "" then existing.url else url)
          (if port =? 0 then existing.port else port) skills (record r { world = w })
          (check_health sql codec net (
            edited_card name skills mode
              (card_to_edit name provided (parse_agent_card codec existing.agent_card_json))))

  -- UpdateAgentMetadata; the connection is made under the name that the caller gives.
  unfoldable pub update_agent_metadata :
      Net
      → String
      → String
      → ℕ
      → List Skill
      → String
      → Option AgentCard
      → Registry
      → Outcome AgentConnection × Registry
  unfolding get persist check_health normalize_agent_card merge_context_mode parse_agent_card
  update_agent_metadata net name url port skills mode provided r =
      edit_found net name url port skills mode provided r (get name sql r.world)

  abbrev hosted_from : String → Option AgentCard → AgentCard
  hosted_from name (some card) = hosted_agent_card name card
  hosted_from name none = hosted_agent_card name (bare_card name)

  abbrev public_of : String → Option Agent → Option AgentConnection → Option AgentCard
  public_of name none conn = none
  public_of name (some a) (some conn) = some (hosted_agent_card name conn.card)
  public_of name (some a) none = some (hosted_from name (parse_agent_card codec a.agent_card_json))

  abbrev read_public : String → Registry → Result (Option Agent) → Result (Option AgentCard)
  read_public name r (err e) = err e
  read_public name r (ok found) = ok (public_of name found (get_client name r))

  -- PublicAgentCard
  unfoldable pub public_agent_card : String → Registry → Result (Option AgentCard)
  unfolding get get_client hosted_agent_card parse_agent_card
  public_agent_card name r = read_public name r (get name sql r.world).0
