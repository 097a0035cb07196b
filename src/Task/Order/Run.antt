-- ===== src/Task/Order/Run.antt =====
-- The order of the tasks under the five tools.
use a2a_platform_go.Prelude.{
  ◌+◌, String, ◌≡◌, refl, sym, ap, ◌∙◌, subst, Bool, true, false, Option, none, some, List, [], ◌∷◌,
  ◌==◌, eq_iff, arith, find, Bool-cases, inl, inr,
}
use a2a_platform_go.Json.{Args, get_string}
use a2a_platform_go.Sql.{Env, World, ok, pure, ◌>>=◌, ◌>>◌}
use a2a_platform_go.Sql.Keeps.{Keeps-bind, Keeps-pure, outcome_keeps, bind_step}
use a2a_platform_go.Task.{
  Row, TaskItem, Tasks, has_id, same_text, scan, scan_first, create, get, claim, update_status,
  can_start, list_unblocked,
}
use a2a_platform_go.Task.Tools
use a2a_platform_go.Task.Tools.{
  JsonStrings, create_task, list_tasks, get_task, claim_task, complete_task, Call, create_call,
  list_call, get_call, claim_call, complete_call, run, run_all,
}
use a2a_platform_go.Task.Order.{
  IsOrdered, startable, started, can_start_ok, can_start-Keeps, get_ok, get_same,
  list_unblocked-Keeps,
}
use a2a_platform_go.Task.Reads.{list_tasks-Keeps, get_task-Keeps}
use a2a_platform_go.Task.Order.Steps.{claim_after_can_start, insert-IsOrdered, complete-IsOrdered}

module _ (json : JsonStrings) (env : Env)
    (separates : same_text env "pending" "completed" ≡ false) where
  abbrev Q : Tasks → Type 0
  Q = IsOrdered json.unmarshal env

  claimed_keeps :
      (id owner : String) (b : Bool) (w : World Tasks)
      → (b ≡ true → startable json.unmarshal env w.tables (find (has_id env id) w.tables) ≡ true)
      → Q w.tables
      → Q (Tools.claimed json id owner b env w).1.tables
  unfolding pure
  claimed_keeps id owner false w may h = h
  claimed_keeps id owner true w may h =
      bind_step Q _ env (claim id owner) w
        (claim_after_can_start json.unmarshal env separates id owner w (may refl) h)
        (λ _ _. claim_after_can_start json.unmarshal env separates id owner w (may refl) h)

  claim_task-IsOrdered :
      (args : Args) (w : World Tasks) → Q w.tables → Q (claim_task json args env w).1.tables
  unfolding claim_task
  claim_task-IsOrdered args w h = elim (Bool-cases (get_string "task_id" args == "")) [
    | inl missing ↦ rw missing h
    | inr given ↦
        let id = get_string "task_id" args in
        let w' = (can_start json.unmarshal id env w).1 in
        let same : w'.tables ≡ w.tables =
          (can_start-Keeps json.unmarshal (λ env t. t ≡ w.tables) id).at env w refl in
        rw given (
          bind_step Q
            (Tools.claimed json id (Tools.owner_or_default json (get_string "owner" args))) env
            (can_start json.unmarshal id) w (subst Q (sym same) h)
            (λ b said.
              claimed_keeps id (Tools.owner_or_default json (get_string "owner" args)) b w'
                (λ yes_b.
                  subst (λ t. startable json.unmarshal env t (find (has_id env id) t) ≡ true)
                    (sym same) (can_start_ok json.unmarshal id env w (said ∙ ap ok yes_b)))
                (subst Q (sym same) h)))
  ]

  create_keeps :
      (item : TaskItem) (text : String) (w : World Tasks)
      → started item.status ≡ false
      → Q w.tables
      → Q ((create item >> pure text) env w).1.tables
  unfolding create
  create_keeps item text w fresh h =
      let kept : Q (create item env w).1.tables =
        outcome_keeps Q w.faults _ w h
          (insert-IsOrdered json.unmarshal env separates _ w fresh h) in
      bind_step Q (λ _. pure text) env (create item) w kept (λ _ _. unfold pure in kept)

  scan_first-some :
      (o : Option Row) (item : TaskItem)
      → scan_first o ≡ ok (some item)
      → (r : Row) × (o ≡ some r) × (r.status ≡ item.status)
  unfolding scan
  scan_first-some none item h = cc
  scan_first-some (some r) item h = (r, refl, ground arith)

  finish_keeps :
      (id result context_id : String) (text : List TaskItem → String) (r : Row) (w : World Tasks)
      → find (has_id env id) w.tables ≡ some r
      → started r.status ≡ true
      → Q w.tables
      → Q
          ((update_status id "completed" result ""
              >> (do items ← list_unblocked json.unmarshal context_id; pure (text items)))
            env w).1.tables
  unfolding update_status
  finish_keeps id result context_id text r w found s h =
      let kept : Q (update_status id "completed" result "" env w).1.tables =
        outcome_keeps Q w.faults _ w h
          (complete-IsOrdered json.unmarshal env separates id result w.now w.tables r found s h) in
      bind_step Q (λ _. list_unblocked json.unmarshal context_id >>= λ items. pure (text items)) env
        (update_status id "completed" result "") w kept
        (λ _ _.
          (Keeps-bind (list_unblocked json.unmarshal context_id) (λ items. pure (text items))
              (list_unblocked-Keeps json.unmarshal (IsOrdered json.unmarshal) context_id)
              (λ items. Keeps-pure (text items))).at
            env _ kept)

  completed_keeps :
      (id result : String) (item : Option TaskItem) (w : World Tasks)
      → scan_first (find (has_id env id) w.tables) ≡ ok item
      → Q w.tables
      → Q (Tools.completed json id result item env w).1.tables
  completed_keeps id result none w got h = unfold pure in h
  completed_keeps id result (some item) w got h = elim (Bool-cases (item.status == "in_progress")) [
    | inl open_item ↦
        let (r, found, same) = scan_first-some _ item got in
        let e : r.status ≡ "in_progress" = same ∙ (eq_iff _ _).0 open_item in
        rw open_item (
          finish_keeps id result item.context_id (Tools.completed_text json id item) r w found
            (rw e) h)
    | inr other ↦ rw other (unfold pure in h)
  ]

  create_task-IsOrdered :
      (args : Args) (w : World Tasks) → Q w.tables → Q (create_task json args env w).1.tables
  unfolding create_task
  create_task-IsOrdered args w h = elim (Bool-cases (get_string "subject" args == "")) [
    | inl missing ↦ rw missing h
    | inr given ↦ elim (Bool-cases (get_string "context_id" args == "")) [
      | inl missing ↦ rw (given, missing) h
      | inr context ↦
          rw (given, context)
            (create_keeps (Tools.new_item json args (env.identifier w.seq) w.now)
              (Tools.created_text json args (env.identifier w.seq)) (record w { seq = w.seq + 1 })
              refl h)
    ]
  ]

  complete_task-IsOrdered :
      (args : Args) (w : World Tasks) → Q w.tables → Q (complete_task json args env w).1.tables
  unfolding complete_task
  complete_task-IsOrdered args w h = elim (Bool-cases (get_string "task_id" args == "")) [
    | inl missing ↦ rw missing h
    | inr given ↦
        let id = get_string "task_id" args in
        rw given (
          bind_step Q (Tools.completed json id (get_string "result" args)) env (get id) w
            (subst Q (sym (get_same json.unmarshal id env w)) h)
            (λ item got.
              completed_keeps id (get_string "result" args) item _
                (rw (get_same json.unmarshal id env w) (get_ok json.unmarshal id env w item got))
                (subst Q (sym (get_same json.unmarshal id env w)) h)))
  ]

  module _ (render : TaskItem → String) where
    run-IsOrdered :
        (call : Call) (w : World Tasks) → Q w.tables → Q (run json render call env w).1.tables
    unfolding run
    run-IsOrdered (create_call args) = create_task-IsOrdered args
    run-IsOrdered (list_call args) = (list_tasks-Keeps json (IsOrdered json.unmarshal) args).at env
    run-IsOrdered (get_call args) =
        (get_task-Keeps json (IsOrdered json.unmarshal) render args).at env
    run-IsOrdered (claim_call args) = claim_task-IsOrdered args
    run-IsOrdered (complete_call args) = complete_task-IsOrdered args

    -- Whatever calls of the five tools are made, one after the other, and whichever of their
    -- statements the server refuses: if at the start identifiers are unique and every task in
    -- progress or completed has all its dependencies completed, so it is at the end. The collation
    -- is assumed to tell "pending" from "completed".
    pub run_all-IsOrdered :
        (calls : List Call) (w : World Tasks)
        → IsOrdered json.unmarshal env w.tables
        → IsOrdered json.unmarshal env (run_all json render calls env w).tables
    unfolding run_all
    run_all-IsOrdered [] w h = h
    run_all-IsOrdered (call ∷ calls) w h =
        run_all-IsOrdered calls (run json render call env w).1 (run-IsOrdered call w h)
