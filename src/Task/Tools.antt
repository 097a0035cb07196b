-- ===== src/Task/Tools.antt =====
-- internal/tools/task_tools.go: the tools by which an agent works on the tasks.
use Prim.Native.String.{◌++◌}
use a2a_platform_go.Prelude.{
  ℕ, String, Bool, true, false, Option, none, some, List, [], ◌∷◌, ◌==◌, if◌then◌else◌, map,
}
use a2a_platform_go.Prelude.Text.{split, trim_space}
use a2a_platform_go.Json.{Args, lookup, as_string, get_string}
use a2a_platform_go.Sql.{Sql, World, Env, failure, pure, raise, asks, draw, ◌>>=◌, ◌>>◌}
use a2a_platform_go.Task.{
  Tasks, TaskItem, create, get, list_by_context, update_status, claim, can_start, list_unblocked,
}

-- encoding/json on a []string.
pub record JsonStrings : Type 0 where
  pub marshal : List String → String
  pub unmarshal : String → Option (List String)

-- strings.Join
unfoldable pub join : String → List String → String
join sep [] = ""
join sep (x ∷ []) = x
join sep (x ∷ y ∷ ys) = x ++ sep ++ join sep (y ∷ ys)

abbrev nonempty : Option String → String
nonempty none = ""
nonempty (some s) = s

-- One statement's worth of `fmt.Errorf`: the text that a missing argument is reported by.
abbrev pub required : String → Sql Tasks String
required name = raise (failure (name ++ " is required"))

module _ (json : JsonStrings) where
  -- blocked_by as it is stored: "" where the argument is missing, empty or no string.
  unfoldable pub blocked_by_json : Args → String
  blocked_by_json args =
      let given = nonempty (as_string (lookup "blocked_by" args)) in
      if given == "" then "" else json.marshal (map trim_space (split b',' given))

  abbrev pub new_item : Args → String → ℕ → TaskItem
  new_item args id now = record {
    id = id;
    context_id = get_string "context_id" args;
    subject = get_string "subject" args;
    description = get_string "description" args;
    status = "pending";
    owner = "";
    blocked_by = blocked_by_json args;
    result = "";
    error = "";
    created_at = now;
    completed_at = none;
  }

  abbrev blocked_suffix : String → String
  blocked_suffix deps = if deps == "" then "" else " (blockedBy: " ++ deps ++ ")"

  abbrev pub created_text : Args → String → String
  created_text args id =
      "Created task "
      ++ id
      ++ ": "
      ++ get_string "subject" args
      ++ blocked_suffix (blocked_by_json args)

  -- "task_" and the nanosecond clock is the identifier that is drawn.
  abbrev pub created : Args → Sql Tasks String
  created args = do
    n ← draw
    id ← asks (λ env w. env.identifier n)
    now ← asks (λ env w. w.now)
    create (new_item args id now)
    pure (created_text args id)

  unfoldable pub create_task : Args → Sql Tasks String
  unfolding draw asks create get_string blocked_by_json ◌>>=◌
  create_task args =
      if get_string "subject" args == ""
      then required "subject"
      else if get_string "context_id" args == ""
      then required "context_id"
      else created args

  abbrev pub owner_or_default : String → String
  owner_or_default owner = if owner == "" then "agent" else owner

  abbrev pub claimed : String → String → Bool → Sql Tasks String
  claimed id owner false = pure ("Task " ++ id ++ " is blocked by incomplete dependencies")
  claimed id owner true = do
    claim id owner
    pure ("Claimed task " ++ id ++ " (owner: " ++ owner ++ ")")

  unfoldable pub claim_task : Args → Sql Tasks String
  unfolding can_start claim get_string ◌>>=◌
  claim_task args =
      let id = get_string "task_id" args in
      if id == "" then required "task_id" else (do
        startable ← can_start json.unmarshal id
        claimed id (owner_or_default (get_string "owner" args)) startable)

  abbrev unblocked_names : List TaskItem → List String
  unblocked_names = map (λ item. item.id ++ " (" ++ item.subject ++ ")")

  abbrev unblocked_suffix : List TaskItem → String
  unblocked_suffix [] = ""
  unblocked_suffix (x ∷ xs) = "\nUnblocked tasks: " ++ join ", " (unblocked_names (x ∷ xs))

  abbrev pub completed_text : String → TaskItem → List TaskItem → String
  completed_text id item unblocked =
      "Completed task " ++ id ++ " (" ++ item.subject ++ ")" ++ unblocked_suffix unblocked

  abbrev pub completed : String → String → Option TaskItem → Sql Tasks String
  completed id result none = pure ("Task " ++ id ++ " not found")
  completed id result (some item) =
      if item.status == "in_progress"
      then (do
        update_status id "completed" result ""
        unblocked ← list_unblocked json.unmarshal item.context_id
        pure (completed_text id item unblocked))
      else pure ("Task " ++ id ++ " is " ++ item.status ++ ", cannot complete")

  unfoldable pub complete_task : Args → Sql Tasks String
  unfolding get update_status list_unblocked get_string join ◌>>=◌
  complete_task args =
      let id = get_string "task_id" args in
      if id == ""
      then required "task_id"
      else (do item ← get id; completed id (get_string "result" args) item)

  abbrev icon : String → String
  icon status =
      if status == "pending"
      then "○"
      else if status == "in_progress"
      then "●"
      else if status == "completed"
      then "✓"
      else if status == "failed"
      then "✗"
      else ""

  abbrev owner_suffix : String → String
  owner_suffix owner = if owner == "" then "" else " [" ++ owner ++ "]"

  abbrev list_line : TaskItem → String
  list_line item =
      " "
      ++ icon item.status
      ++ " "
      ++ item.id
      ++ ": "
      ++ item.subject
      ++ " ["
      ++ item.status
      ++ "]"
      ++ owner_suffix item.owner
      ++ blocked_suffix item.blocked_by

  abbrev pub listing : String → List TaskItem → String
  listing context_id [] = "No tasks found. Use create_task to add some."
  listing context_id (x ∷ xs) =
      join "\n" (("Tasks for context " ++ context_id ++ ":") ∷ map list_line (x ∷ xs))

  unfoldable pub list_tasks : Args → Sql Tasks String
  unfolding list_by_context get_string join ◌>>=◌
  list_tasks args =
      let context_id = get_string "context_id" args in
      if context_id == ""
      then required "context_id"
      else (do items ← list_by_context context_id; pure (listing context_id items))

  -- json.MarshalIndent of the item is left to `render`.
  module _ (render : TaskItem → String) where
    abbrev pub shown : String → Option TaskItem → Sql Tasks String
    shown id none = pure ("Task " ++ id ++ " not found")
    shown id (some item) = pure (render item)

    unfoldable pub get_task : Args → Sql Tasks String
    unfolding get get_string ◌>>=◌
    get_task args =
        let id = get_string "task_id" args in
        if id == "" then required "task_id" else (do item ← get id; shown id item)

-- A call of one of the five tools, as the engine makes it.
pub data Call : Type 0 where
  create_call list_call get_call claim_call complete_call : Args → Call

module _ (json : JsonStrings) (render : TaskItem → String) where
  unfoldable pub run : Call → Sql Tasks String
  unfolding create_task list_tasks get_task claim_task complete_task
  run (create_call args) = create_task json args
  run (list_call args) = list_tasks json args
  run (get_call args) = get_task json render args
  run (claim_call args) = claim_task json args
  run (complete_call args) = complete_task json args

  -- Calls one after the other; an error ends only its own call.
  unfoldable pub run_all : List Call → Env → World Tasks → World Tasks
  unfolding run
  run_all [] env w = w
  run_all (call ∷ calls) env w = run_all calls env (run call env w).1
