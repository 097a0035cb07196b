-- ===== src/Task/Stuck.antt =====
-- What the NULL columns of a new task do to the tools: TaskItemStore.Get scans `result` and `error`
-- into Go strings, which fails on NULL, and Create leaves both NULL.
use a2a_platform_go.Prelude.{
  ◌+◌, String, ◌≡◌, refl, sym, subst, Bool, true, false, Option, none, some, List, [], ◌∷◌, ◌==◌,
  arith, find, All, All-append, All-find, Bool-cases, inl, inr, is_some,
}
use a2a_platform_go.Json.{Args, get_string}
use a2a_platform_go.Sql.{Env, World, ok, pure, ◌>>◌}
use a2a_platform_go.Sql.Invert.{bind_ok}
use a2a_platform_go.Sql.Keeps.{outcome_keeps, bind_step}
use a2a_platform_go.Task.{
  Row, TaskItem, Tasks, has_id, scan, scan_first, insert_row, create, get, can_start, start_item,
}
use a2a_platform_go.Task.Tools
use a2a_platform_go.Task.Tools.{
  JsonStrings, create_task, list_tasks, get_task, claim_task, complete_task, Call, create_call,
  list_call, get_call, claim_call, complete_call, run, run_all,
}
use a2a_platform_go.Task.Order.{get_ok, get_same, can_start-Keeps}
use a2a_platform_go.Task.Reads.{list_tasks-Keeps, get_task-Keeps}

-- A task as Create leaves it.
abbrev pub IsFresh : Row → Type 0
IsFresh r = (r.result ≡ none) × (r.status ≡ "pending")

scan_first-fresh :
    (o : Option Row) (item : Option TaskItem)
    → ((r : Row) → o ≡ some r → r.result ≡ none)
    → scan_first o ≡ ok item
    → item ≡ none
unfolding scan
scan_first-fresh none item fresh h = ground arith
scan_first-fresh (some r) item fresh h = ground (arith, fresh r refl)

module _ (json : JsonStrings) (env : Env) where
  -- Get returns no fresh task: it finds nothing, or it fails.
  get-fresh :
      (id : String) (w : World Tasks) (item : Option TaskItem)
      → All IsFresh w.tables
      → (get id env w).0 ≡ ok item
      → item ≡ none
  get-fresh id w item fresh got =
      scan_first-fresh (find (has_id env id) w.tables) item
        (λ r e. (All-find IsFresh (has_id env id) w.tables r e fresh).0.0)
        (get_ok json.unmarshal id env w item got)

  can_start-fresh :
      (id : String) (w : World Tasks)
      → All IsFresh w.tables
      → (can_start json.unmarshal id env w).0 ≡ ok true
      → ⊥
  unfolding can_start pure
  can_start-fresh id w fresh h =
      let (item, got, next, _) = bind_ok (get id) (start_item json.unmarshal) env w h in
      let none_found : item ≡ none = get-fresh id w item fresh got in
      let absent : (start_item json.unmarshal none env (get id env w).1).0 ≡ ok true =
        rw none_found at next in
      cc

  claim_task-fresh :
      (args : Args) (w : World Tasks)
      → All IsFresh w.tables
      → (claim_task json args env w).1.tables ≡ w.tables
  unfolding claim_task
  claim_task-fresh args w fresh = elim (Bool-cases (get_string "task_id" args == "")) [
    | inl missing ↦ rw missing
    | inr given ↦
        let id = get_string "task_id" args in
        let w' = (can_start json.unmarshal id env w).1 in
        let same : w'.tables ≡ w.tables =
          (can_start-Keeps json.unmarshal (λ env t. t ≡ w.tables) id).at env w refl in
        rw given (
          bind_step (λ t. t ≡ w.tables)
            (Tools.claimed json id (Tools.owner_or_default json (get_string "owner" args))) env
            (can_start json.unmarshal id) w same
            (refused id (Tools.owner_or_default json (get_string "owner" args)) w' same))
  ]
    where
      refused :
          (id owner : String) (w' : World Tasks)
          → w'.tables ≡ w.tables
          → (b : Bool) → (can_start json.unmarshal id env w).0 ≡ ok b
          → (Tools.claimed json id owner b env w').1.tables ≡ w.tables
      refused id owner w' same true said = absurd (can_start-fresh id w fresh said)
      refused id owner w' same false said = unfold pure in same

  complete_task-fresh :
      (args : Args) (w : World Tasks)
      → All IsFresh w.tables
      → (complete_task json args env w).1.tables ≡ w.tables
  unfolding complete_task
  complete_task-fresh args w fresh = elim (Bool-cases (get_string "task_id" args == "")) [
    | inl missing ↦ rw missing
    | inr given ↦
        let id = get_string "task_id" args in
        let same = get_same json.unmarshal id env w in
        rw given (
          bind_step (λ t. t ≡ w.tables) (Tools.completed json id (get_string "result" args)) env
            (get id) w same
            (λ item got.
              subst
                (λ i.
                  (Tools.completed json id (get_string "result" args) i env
                    (get id env w).1).1.tables
                  ≡ w.tables)
                (sym (get-fresh id w item fresh got)) same))
  ]

  abbrev AllFresh : Env → Tasks → Type 0
  AllFresh _ t = All IsFresh t

  insert_row-IsFresh :
      (r : Row) (w : World Tasks)
      → IsFresh r
      → All IsFresh w.tables
      → All IsFresh (insert_row r env w).1
  unfolding insert_row
  insert_row-IsFresh r w new h = elim (Bool-cases (is_some (find (has_id env r.id) w.tables))) [
    | inl taken ↦ rw taken h
    | inr free ↦ rw free (All-append IsFresh w.tables (r ∷ []) h (new, tt))
  ]

  created_keeps :
      (item : TaskItem) (text : String) (w : World Tasks)
      → item.status ≡ "pending"
      → All IsFresh w.tables
      → All IsFresh ((create item >> pure text) env w).1.tables
  unfolding create
  created_keeps item text w new h =
      let kept : All IsFresh (create item env w).1.tables =
        outcome_keeps (All IsFresh) w.faults _ w h (insert_row-IsFresh _ w (refl, new) h) in
      bind_step (All IsFresh) (λ _. pure text) env (create item) w kept (λ _ _. unfold pure in kept)

  create_task-IsFresh :
      (args : Args) (w : World Tasks)
      → All IsFresh w.tables
      → All IsFresh (create_task json args env w).1.tables
  unfolding create_task
  create_task-IsFresh args w h = elim (Bool-cases (get_string "subject" args == "")) [
    | inl missing ↦ rw missing h
    | inr given ↦ elim (Bool-cases (get_string "context_id" args == "")) [
      | inl missing ↦ rw (given, missing) h
      | inr context ↦
          rw (given, context)
            (created_keeps (Tools.new_item json args (env.identifier w.seq) w.now)
              (Tools.created_text json args (env.identifier w.seq)) (record w { seq = w.seq + 1 })
              refl h)
    ]
  ]

  module _ (render : TaskItem → String) where
    run-IsFresh :
        (call : Call) (w : World Tasks)
        → All IsFresh w.tables
        → All IsFresh (run json render call env w).1.tables
    unfolding run
    run-IsFresh (create_call args) w h = create_task-IsFresh args w h
    run-IsFresh (list_call args) w h = (list_tasks-Keeps json AllFresh args).at env w h
    run-IsFresh (get_call args) w h = (get_task-Keeps json AllFresh render args).at env w h
    run-IsFresh (claim_call args) w h = subst (All IsFresh) (sym (claim_task-fresh args w h)) h
    run-IsFresh (complete_call args) w h =
        subst (All IsFresh) (sym (complete_task-fresh args w h)) h

    -- Where every task is pending with a NULL result, as in an empty table and as create_task leaves
    -- it, every task still is after any calls of the five tools: none is ever claimed or completed.
    pub run_all-IsFresh :
        (calls : List Call) (w : World Tasks)
        → All IsFresh w.tables
        → All IsFresh (run_all json render calls env w).tables
    unfolding run_all
    run_all-IsFresh [] w h = h
    run_all-IsFresh (call ∷ calls) w h =
        run_all-IsFresh calls (run json render call env w).1 (run-IsFresh call w h)
