-- ===== src/Tasks/Created.antt =====
-- A task that has been created is read back.
use a2a_platform_go.Prelude.{
  ℕ, ◌+◌, String, none, ◌==◌, if◌then◌else◌, arith, eq_iff, Bool-cases, ◌≡◌, refl, sym, ◌∙◌, ap,
  inl, inr, Option, some, [], ◌∷◌, find, Option-cases, eq_refl,
}
use a2a_platform_go.Prelude.Tables.{find-append}
use a2a_platform_go.Sql.{Env, World, Result, ok, err, duplicate_key}
use a2a_platform_go.Sql.Invert.{statement_ok, query_ok, ok_same}
use a2a_platform_go.Tasks.{
  PlatformTask, Table, has_local_id, normalize_task, insert_row, create, scan, scanned, get,
  or_text, or_context,
}

-- A task as it is kept: under the number `n`, from the instant `now`.
abbrev pub stored : ℕ → ℕ → PlatformTask → PlatformTask
stored n now t = record (normalize_task t) { id = n; created_at = now; updated_at = now }

abbrev either : String → String → String
either given other = if given == "" then other else given

abbrev root_of : Option String → Option String → Option String
root_of (some root) context = some root
root_of none (some context) = if context == "" then none else some context
root_of none none = none

-- The task that is read back: each agent, or the other one where it is empty; the root context, or
-- else the context where it is there and not empty.
abbrev pub read_back : ℕ → ℕ → PlatformTask → PlatformTask
read_back n now t = record t {
  id = n;
  created_at = now;
  updated_at = now;
  target_agent = either t.target_agent t.agent_name;
  agent_name = either t.agent_name t.target_agent;
  root_context_id = root_of t.root_context_id t.context_id;
}

same_target :
    (target agent : String)
    → or_text (or_text (or_text agent target) agent) (or_text agent target) ≡ either target agent
same_target target agent = ground arith

same_agent : (target agent : String) → or_text (or_text agent target) agent ≡ either agent target
same_agent target agent = elim (Bool-cases (agent == "")) [
  | inl missing ↦ elim (Bool-cases (target == "")) [
    | inl both ↦ rw (missing, both) ((eq_iff agent "").0 missing ∙ sym ((eq_iff target "").0 both))
    | inr given ↦ rw (missing, given) refl
  ]
  | inr given ↦ rw given refl
]

same_root : (root context : Option String) → or_context root context ≡ root_of root context
same_root (some root) context = refl
same_root none (some context) = refl
same_root none none = refl

scan-stored : (n now : ℕ) (t : PlatformTask) → scan (stored n now t) ≡ read_back n now t
unfolding scan normalize_task
scan-stored n now t =
    rw
      (
        same_target t.target_agent t.agent_name,
        same_agent t.target_agent t.agent_name,
        same_root t.root_context_id t.context_id,
      )
      refl

module _ (env : Env) where
  insert_row_ok :
      (n : ℕ) (t : PlatformTask) (w : World Table) {u : Unit {0}}
      → (insert_row n t env w).0 ≡ ok u
      → find (has_local_id env t.local_task_id) (insert_row n t env w).1
        ≡ some (record t { id = n; created_at = w.now; updated_at = w.now })
  unfolding insert_row find
  insert_row_ok n t w {u} h =
      elim (Option-cases (find (has_local_id env t.local_task_id) w.tables)) [
        | inl free ↦
            let row = record t { id = n; created_at = w.now; updated_at = w.now } in
            rw free (
              find-append (has_local_id env t.local_task_id) w.tables (row ∷ [])
              ∙ rw free (rw (eq_refl (env.collation t.local_task_id)) refl))
        | inr (old, taken) ↦ let refused : err duplicate_key ≡ ok u = rw taken at h in cc
      ]

  -- Where a task is created, what is read by its identifier in the tables that this leaves is this
  -- task, under the number and the instant of the creation: each of its two agents is the given one,
  -- or the other where that is empty, and its root context is the given one, or else its context,
  -- where that is there and not empty.
  pub create-get :
      (t : PlatformTask) (w v : World Table) (found : Option PlatformTask)
      → (create t env w).0 ≡ ok tt
      → v.tables ≡ (create t env w).1.tables
      → (get t.local_task_id env v).0 ≡ ok found
      → found ≡ some (read_back w.seq w.now t)
  unfolding create get normalize_task
  create-get t w v found made same read =
      let u = record w { seq = w.seq + 1 } in
      let (inserted, left) = statement_ok (insert_row w.seq (normalize_task t)) env u made in
      let row : Env → World Table → Result (Option PlatformTask) =
        λ env w. ok (scanned (find (has_local_id env t.local_task_id) w.tables)) in
      let kept = insert_row_ok w.seq (normalize_task t) u inserted in
      let look : Table → Option PlatformTask =
        λ tables. scanned (find (has_local_id env t.local_task_id) tables) in
      sym (ok_same (look v.tables) found (query_ok row env v read))
      ∙ ap look (same ∙ left)
      ∙ ap scanned kept
      ∙ ap some (scan-stored w.seq w.now t)
