-- ===== src/Task/Reads.antt =====
-- The tools that only read, list_tasks and get_task, keep whatever holds of the table.
use a2a_platform_go.Prelude.{String, List, Option, none, some, ◌==◌}
use a2a_platform_go.Json.{Args, get_string}
use a2a_platform_go.Sql.{Env, Sql, pure, ◌>>=◌}
use a2a_platform_go.Sql.Keeps.{Keeps, Keeps-bind, Keeps-pure, Keeps-raise, Keeps-if}
use a2a_platform_go.Task.{TaskItem, Tasks, get, list_by_context}
use a2a_platform_go.Task.Tools
use a2a_platform_go.Task.Tools.{JsonStrings, list_tasks, get_task}
use a2a_platform_go.Task.Order.{get-Keeps, list_by_context-Keeps}

module _ (json : JsonStrings) (P : Env → Tasks → Type 0) where
  pub list_tasks-Keeps : (args : Args) → Keeps P (list_tasks json args)
  unfolding list_tasks
  list_tasks-Keeps args =
      let context_id = get_string "context_id" args in
      let found : List TaskItem → Sql Tasks String =
        λ items. pure (Tools.listing json context_id items) in
      Keeps-if (context_id == "") (Tools.required "context_id")
        (list_by_context context_id >>= found) (λ _. Keeps-raise _)
        (λ _.
          Keeps-bind (list_by_context context_id) found
            (list_by_context-Keeps json.unmarshal P context_id) (λ items. Keeps-pure _))

  module _ (render : TaskItem → String) where
    shown-Keeps : (id : String) (item : Option TaskItem) → Keeps P (Tools.shown json render id item)
    shown-Keeps id none = Keeps-pure _
    shown-Keeps id (some item) = Keeps-pure _

    pub get_task-Keeps : (args : Args) → Keeps P (get_task json render args)
    unfolding get_task
    get_task-Keeps args =
        let id = get_string "task_id" args in
        Keeps-if (id == "") (Tools.required "task_id") (get id >>= Tools.shown json render id)
          (λ _. Keeps-raise _)
          (λ _.
            Keeps-bind (get id) (Tools.shown json render id) (get-Keeps json.unmarshal P id)
              (shown-Keeps id))
