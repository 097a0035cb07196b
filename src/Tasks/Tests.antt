-- ===== src/Tasks/Tests.antt =====
-- Three tasks, of which two match a filter, on pages of one task; and a task that is created.
use a2a_platform_go.Prelude.{
  ℕ, ◌≡◌, refl, String, Bool, false, none, some, List, select, find, length, ltb, [], ◌∷◌,
  if◌then◌else◌, arith,
}
use a2a_platform_go.Sql.{World}
use a2a_platform_go.Group.Tests.{env}
use a2a_platform_go.Tasks.{
  PlatformTask, Table, Filter, matches, scan, scan_all, list_by_filter, create, get,
}
use a2a_platform_go.Tasks.Pages.{joined, list_by_filter-joined}
use a2a_platform_go.Tasks.Created.{read_back, create-get}

abbrev like : String → String → Bool
like search s = false

abbrev task : String → String → ℕ → PlatformTask
task id state created_at = record {
  id = created_at;
  local_task_id = id;
  server_task_id = none;
  source_agent = none;
  target_agent = "";
  agent_name = "writer";
  context_id = some "c";
  root_context_id = none;
  parent_task_id = none;
  parent_tool_call_id = none;
  state = state;
  created_at = created_at;
  updated_at = created_at;
}

abbrev world : Table → World Table
world tables = record { tables = tables; faults = []; seq = 4; now = 9 }

abbrev three : Table
three = task "a" "working" 1 ∷ task "b" "done" 2 ∷ task "c" "working" 3 ∷ []

abbrev working : Filter
working = record { agent_name = ""; state = "working"; search = ""; context = none }

abbrev first : World Table × List PlatformTask
first = (world three, scan (task "c" "working" 3) ∷ [])

abbrev second : World Table × List PlatformTask
second = (world three, scan (task "a" "working" 1) ∷ [])

-- A server that gives the tasks of one second in the order of the table.
abbrev insert_newest : PlatformTask → List PlatformTask → List PlatformTask
insert_newest t [] = t ∷ []
insert_newest t (u ∷ us) =
    let rest = insert_newest t us in if ltb t.created_at u.created_at then u ∷ rest else t ∷ u ∷ us

abbrev newest_first : List PlatformTask → List PlatformTask
newest_first [] = []
newest_first (t ∷ ts) = insert_newest t (newest_first ts)

abbrev rows : List PlatformTask
rows = task "c" "working" 3 ∷ task "a" "working" 1 ∷ []

list_by_filter-joined_example :
    (joined (first ∷ second ∷ []) ≡ scan_all like rows)
    × (length (joined (first ∷ second ∷ [])) ≡ 2)
unfolding list_by_filter select matches
list_by_filter-joined_example =
    list_by_filter-joined like (λ w ts. newest_first ts) env working 1 2 three rows (λ v same. refl)
      refl first (second ∷ []) (refl, refl, (refl, refl, tt)) (omega arith)

abbrev after : World Table
after = (create (task "d" "PENDING" 0) env (world three)).1

create-get_example :
    some (record (task "d" "PENDING" 9) {
      id = 4;
      target_agent = "writer";
      root_context_id = some "c";
    })
    ≡ some (read_back 4 9 (task "d" "PENDING" 0))
unfolding create get find
create-get_example =
    create-get env (task "d" "PENDING" 0) (world three) after
      (some (record (task "d" "PENDING" 9) {
        id = 4;
        target_agent = "writer";
        root_context_id = some "c";
      }))
      refl refl refl
