-- ===== src/Tasks.antt =====
-- TaskStore of internal/svc/store.go: the tasks that agents give each other, in the table tasks.
pub mod Pages
pub mod Created
mod Tests
use a2a_platform_go.Prelude.{
  ℕ, zero, suc, ◌+◌, ◌-◌, ◌*◌, String, Bool, true, false, ◌&&◌, ◌||◌, not, Option, none, some, List,
  [], ◌∷◌, ◌++◌, ◌==◌, ◌=?◌, ltb, take, length, find, select, update, is_some, if◌then◌else◌,
}
use a2a_platform_go.Sql.{
  Env, World, Sql, Result, ok, err, failure, db_error, duplicate_key, pure, raise, statement, query,
  exec, draw, ◌>>=◌, ◌>>◌,
}
use a2a_platform_go.Group.{same_text}

-- A column that is NULL is none.
pub record PlatformTask : Type 0 where
  pub id : ℕ
  pub local_task_id : String
  pub server_task_id : Option String
  pub source_agent : Option String
  pub target_agent : String
  pub agent_name : String
  pub context_id : Option String
  pub root_context_id : Option String
  pub parent_task_id : Option String
  pub parent_tool_call_id : Option String
  pub state : String
  pub created_at : ℕ
  pub updated_at : ℕ

abbrev pub Table : Type 0
Table = List PlatformTask

abbrev pub has_local_id : Env → String → PlatformTask → Bool
has_local_id env id t = same_text env id t.local_task_id

abbrev pub or_text : String → String → String
or_text fallback s = if s == "" then fallback else s

-- A task that names no root belongs to its own context, if it has one.
abbrev pub or_context : Option String → Option String → Option String
or_context none (some c) = if c == "" then none else some c
or_context none none = none
or_context (some root) context = some root

-- What Create writes: each of the two agents stands in for the other where it is not given.
unfoldable pub normalize_task : PlatformTask → PlatformTask
normalize_task t = record t {
  target_agent = or_text t.agent_name t.target_agent;
  agent_name = or_text (or_text t.agent_name t.target_agent) t.agent_name;
  root_context_id = or_context t.root_context_id t.context_id;
}

unfoldable pub insert_row : ℕ → PlatformTask → Env → World Table → Result (Unit {0}) × Table
insert_row n t env w =
    if is_some (find (has_local_id env t.local_task_id) w.tables)
    then (err duplicate_key, w.tables)
    else (ok tt, w.tables ++ record t { id = n; created_at = w.now; updated_at = w.now } ∷ [])

unfoldable pub create : PlatformTask → Sql Table (Unit {0})
unfolding normalize_task insert_row draw statement ◌>>=◌
create t = do n ← draw; statement (insert_row n (normalize_task t))

-- What a row is read as: an empty target is the agent.
unfoldable pub scan : PlatformTask → PlatformTask
scan t = record t { target_agent = or_text t.agent_name t.target_agent }

abbrev pub scanned : Option PlatformTask → Option PlatformTask
scanned none = none
scanned (some t) = some (scan t)

unfoldable pub get : String → Sql Table (Option PlatformTask)
unfolding query find scan
get id = query (λ env w. ok (scanned (find (has_local_id env id) w.tables)))

-- The columns that Update may set, with their values.
abbrev pub allowed_columns : List String
allowed_columns =
    "server_task_id" ∷ "source_agent" ∷ "target_agent" ∷ "agent_name" ∷ "context_id"
    ∷ "root_context_id" ∷ "parent_task_id" ∷ "parent_tool_call_id" ∷ "state" ∷ []

abbrev pub is_allowed : String → Bool
is_allowed column = is_some (find (λ c. c == column) allowed_columns)

abbrev set_field : String → String → PlatformTask → PlatformTask
set_field column value t =
    if column == "server_task_id"
    then record t { server_task_id = some value }
    else if column == "source_agent"
    then record t { source_agent = some value }
    else if column == "target_agent"
    then record t { target_agent = value }
    else if column == "agent_name"
    then record t { agent_name = value }
    else if column == "context_id"
    then record t { context_id = some value }
    else if column == "root_context_id"
    then record t { root_context_id = some value }
    else if column == "parent_task_id"
    then record t { parent_task_id = some value }
    else if column == "parent_tool_call_id"
    then record t { parent_tool_call_id = some value }
    else record t { state = value }

unfoldable pub set_fields : List (String × String) → PlatformTask → PlatformTask
set_fields [] t = t
set_fields ((column, value) ∷ fields) t = set_fields fields (set_field column value t)

unfoldable pub first_refused : List (String × String) → Option String
first_refused [] = none
first_refused ((column, value) ∷ fields) =
    if is_allowed column then first_refused fields else some column

abbrev update_allowed : String → List (String × String) → Option String → Sql Table (Unit {0})
update_allowed id fields (some column) = raise (failure "unsupported task update column")
update_allowed id fields none = exec (λ env w.
    update (has_local_id env id) (λ t. record (set_fields fields t) { updated_at = w.now })
      w.tables)

-- Update of a map, given by its entries, with texts for values.
unfoldable pub edit : String → List (String × String) → Sql Table (Unit {0})
unfolding exec update set_fields first_refused raise
edit id [] = pure tt
edit id (field ∷ fields) = update_allowed id (field ∷ fields) (first_refused (field ∷ fields))

pub record Filter : Type 0 where
  pub agent_name : String
  pub state : String
  pub search : String
  -- none where no filter on the context is set; an empty text stands for tasks without a context
  pub context : Option String

abbrev is_text : Env → String → Option String → Bool
is_text env s none = false
is_text env s (some t) = same_text env s t

abbrev in_context : Env → Option String → Option String → Bool
in_context env none context = true
in_context env (some c) context = if c == "" then not (is_some context) else is_text env c context

-- `like` is MySQL's LIKE with the search between two wildcards; NULL is like nothing.
module _ (like : String → String → Bool) where
  abbrev like_some : String → Option String → Bool
  like_some search none = false
  like_some search (some s) = like search s

  abbrev found_in : String → PlatformTask → Bool
  found_in search t =
      like search t.local_task_id
      || like_some search t.server_task_id
      || like_some search t.context_id
      || like_some search t.source_agent
      || like search t.target_agent

  -- The WHERE clause.
  unfoldable pub matches : Env → Filter → PlatformTask → Bool
  matches env f t =
      (f.agent_name == "" || same_text env f.agent_name t.agent_name)
      && (f.state == "" || same_text env f.state t.state)
      && in_context env f.context t.context_id
      && (f.search == "" || found_in f.search t)

  abbrev pub drop : ℕ → List PlatformTask → List PlatformTask
  drop zero ts = ts
  drop (suc n) [] = []
  drop (suc n) (t ∷ ts) = drop n ts

  abbrev pub scan_all : List PlatformTask → List PlatformTask
  scan_all [] = []
  scan_all (t ∷ ts) = scan t ∷ scan_all ts

  unfoldable pub count : Filter → Sql Table ℕ
  unfolding query select matches
  count f = query (λ env w. ok (length (select (matches env f) w.tables)))

  -- LIMIT and OFFSET; an offset below zero is an error of the server.
  unfoldable pub page_of : ℕ → ℕ → List PlatformTask → Result (List PlatformTask)
  unfolding scan
  page_of page size rows =
      if page =? 0 && not (size =? 0)
      then err db_error
      else ok (scan_all (take size (drop ((page - 1) * size) rows)))

  -- `by_newest` is MySQL's ORDER BY created_at DESC: among the tasks of one second it may choose any
  -- order at each query.
  module _ (by_newest : World Table → List PlatformTask → List PlatformTask) where
    unfoldable pub list_page : Filter → ℕ → ℕ → Sql Table (List PlatformTask)
    unfolding query select matches page_of
    list_page f page size =
        query (λ env w. page_of page size (by_newest w (select (matches env f) w.tables)))

    -- ListByFilter: the tasks of a page, and how many there are on all pages.
    unfoldable pub list_by_filter : Filter → ℕ → ℕ → Sql Table (List PlatformTask × ℕ)
    unfolding count list_page ◌>>=◌
    list_by_filter f page size = do
      total ← count f
      tasks ← list_page f page size
      pure (tasks, total)
