-- ===== src/Registry/Agents.antt =====
-- AgentStore of internal/svc/store.go: the table agents, with the unique key `name`.
use a2a_platform_go.Prelude.{
  ℕ, String, Bool, Option, List, [], ◌∷◌, ◌++◌, ◌==◌, find, select, update, delete, if◌then◌else◌,
  is_some,
}
use a2a_platform_go.Sql.{Env, Sql, ok, query, exec}
use a2a_platform_go.Group.{same_text}

-- model.Agent, without the columns that only the server reads.
pub record Agent : Type 0 where
  pub name : String
  pub type_name : String
  pub url : String
  pub port : ℕ
  pub skills_json : String
  pub status : String
  pub connected_at : Option ℕ
  pub agent_card_json : String
  pub error_message : Option String
  pub secret : String

abbrev pub Table : Type 0
Table = List Agent

abbrev pub has_name : Env → String → Agent → Bool
has_name env name a = same_text env name a.name

-- ON DUPLICATE KEY UPDATE: the row keeps its own spelling of the name.
unfoldable pub upsert_row : Env → Agent → Table → Table
unfolding find update
upsert_row env a rows =
    if is_some (find (has_name env a.name) rows)
    then update (has_name env a.name) (λ r. record a { name = r.name }) rows
    else rows ++ a ∷ []

unfoldable pub upsert : Agent → Sql Table (Unit {0})
unfolding exec upsert_row
upsert a = exec (λ env w. upsert_row env a w.tables)

unfoldable pub get : String → Sql Table (Option Agent)
unfolding query find
get name = query (λ env w. ok (find (has_name env name) w.tables))

-- With an empty status all agents are listed.
unfoldable pub list : String → Sql Table (List Agent)
unfolding query select
list status = query (λ env w.
    ok (if status == "" then w.tables else select (λ a. same_text env status a.status) w.tables))

unfoldable pub update_status : String → String → Option String → Sql Table (Unit {0})
unfolding exec update
update_status name status message = exec (λ env w.
    update (has_name env name) (λ a. record a { status = status; error_message = message })
      w.tables)

unfoldable pub remove : String → Sql Table (Unit {0})
unfolding exec delete
remove name = exec (λ env w. delete (has_name env name) w.tables)
