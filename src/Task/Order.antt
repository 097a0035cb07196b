-- ===== src/Task/Order.antt =====
-- No task starts before the tasks that it waits for: an invariant of the table under the tools.
pub mod Steps
pub mod Run
use a2a_platform_go.Prelude.{
  ℕ, String, ◌≡◌, refl, sym, ap, ◌∙◌, subst, Bool, true, false, ◌&&◌, ◌||◌, Option, none, some,
  List, [], ◌∷◌, ◌++◌, ◌==◌, eq_iff, arith, if◌then◌else◌, find, update, all, All, Bool-cases,
  Option-cases, inl, inr, All-update, All-append, All-map, All-both, all_mono, is_some,
}
use a2a_platform_go.Prelude.Tables.{IsKeyed, at, find-update, map_found, patch}
use a2a_platform_go.Sql.{
  Env, World, Sql, Result, ok, err, pure, raise, statement, query, exec, ◌>>=◌, draw, asks,
}
use a2a_platform_go.Sql.Invert.{bind_ok, query_ok, query_same, statement_ok}
use a2a_platform_go.Sql.Keeps.{
  Keeps, keeps_rules, Keeps-bind, Keeps-if, Keeps-pure, Keeps-query, Keeps-exec, Keeps-statement,
}
use a2a_platform_go.Task.{
  Row, TaskItem, Tasks, has_id, same_text, is_pending, scan, scan_first, insert_row, create, get,
  claim, update_status, can_start, all_completed, is_completed, start_item, start_deps, or_false,
  or_false_of, keep_item, kept, keep_unblocked, list_by_context, list_unblocked,
}

abbrev pub id_key : Env → Row → String
id_key env r = env.collation r.id

abbrev row_completed : Option Row → Bool
row_completed none = false
row_completed (some r) = r.status == "completed"

-- The task `d` is in the table and completed.
abbrev pub is_done : Env → Tasks → String → Bool
is_done env t d = row_completed (find (has_id env d) t)

abbrev started : String → Bool
started status = status == "in_progress" || status == "completed"

module _ (unmarshal : String → Option (List String)) where
  abbrev deps_in : Env → Tasks → Option (List String) → Bool
  deps_in env t none = false
  deps_in env t (some deps) = all (is_done env t) deps

  -- Every task that `r` waits for is completed.
  abbrev pub deps_done : Env → Tasks → Row → Bool
  deps_done env t r = if r.blocked_by == "" then true else deps_in env t (unmarshal r.blocked_by)

  -- Identifiers are unique, and what has been started had its dependencies completed.
  pub record IsOrdered (env : Env) (t : Tasks) : Type 0 where
    pub keyed : IsKeyed ◌==◌ eq_iff (id_key env) t
    pub ordered : All (λ r. started r.status ≡ true → deps_done env t r ≡ true) t

  scan_first-completed :
      (o : Option Row) (i : Option TaskItem)
      → scan_first o ≡ ok i
      → is_completed unmarshal i ≡ row_completed o
  unfolding scan
  scan_first-completed o i h = ground arith

  pub get_ok :
      (id : String) (env : Env) (w : World Tasks) (i : Option TaskItem)
      → (get id env w).0 ≡ ok i
      → scan_first (find (has_id env id) w.tables) ≡ ok i
  unfolding get
  get_ok id env w i h = query_ok (λ env w. scan_first (find (has_id env id) w.tables)) env w h

  pub get_same : (id : String) (env : Env) (w : World Tasks) → (get id env w).1.tables ≡ w.tables
  unfolding get
  get_same id env w = query_same (λ env w. scan_first (find (has_id env id) w.tables)) env w

  after_dep : List String → Option TaskItem → Sql Tasks Bool
  after_dep deps dep =
      if is_completed unmarshal dep then all_completed unmarshal deps else pure false

  after_dep_ok :
      (deps : List String) (dep : Option TaskItem) (env : Env) (w : World Tasks)
      → (after_dep deps dep env w).0 ≡ ok true
      → (is_completed unmarshal dep ≡ true) × ((all_completed unmarshal deps env w).0 ≡ ok true)
  unfolding pure after_dep
  after_dep_ok deps dep env w h = ground arith

  all_completed_ok :
      (deps : List String) (env : Env) (w : World Tasks)
      → (all_completed unmarshal deps env w).0 ≡ ok true
      → all (is_done env w.tables) deps ≡ true
  unfolding all_completed all after_dep
  all_completed_ok [] env w h = refl
  all_completed_ok (d ∷ deps) env w h =
      let (dep, got, next, _) = bind_ok (get d) (after_dep deps) env w h in
      let w' = (get d env w).1 in
      let (complete, rest) = after_dep_ok deps dep env w' next in
      let here : is_done env w.tables d ≡ true =
        sym (scan_first-completed _ dep (get_ok d env w dep got)) ∙ complete in
      rw here (
        subst (λ t. all (is_done env t) deps ≡ true) (get_same d env w)
          (all_completed_ok deps env w' rest))

  module _ (P : Env → Tasks → Type 0) where
    pub get-Keeps : (id : String) → Keeps P (get id)
    unfolding get
    get-Keeps id = search keeps_rules

    all_completed-Keeps : (deps : List String) → Keeps P (all_completed unmarshal deps)
    unfolding all_completed
    all_completed-Keeps [] = search keeps_rules
    all_completed-Keeps (d ∷ deps) =
        Keeps-bind (get d) _ (get-Keeps d)
          (λ dep. Keeps-if _ _ _ (λ _. all_completed-Keeps deps) (λ _. Keeps-pure false))

    start_deps-Keeps : (deps : Option (List String)) → Keeps P (start_deps unmarshal deps)
    start_deps-Keeps none = search keeps_rules
    start_deps-Keeps (some deps) = all_completed-Keeps deps

    start_item-Keeps : (item : Option TaskItem) → Keeps P (start_item unmarshal item)
    start_item-Keeps none = search keeps_rules
    start_item-Keeps (some item) = search (keeps_rules, start_deps-Keeps)

    -- Looking whether a task can start changes nothing.
    pub can_start-Keeps : (id : String) → Keeps P (can_start unmarshal id)
    unfolding can_start
    can_start-Keeps id = search (keeps_rules, start_item-Keeps)

    or_false_keeps :
        (env : Env) (r : Result Bool × World Tasks)
        → P env r.1.tables
        → P env (or_false unmarshal r).1.tables
    or_false_keeps env (ok b, w) h = h
    or_false_keeps env (err e, w) h = h

    or_false_of-Keeps : (id : String) → Keeps P (or_false_of unmarshal id)
    or_false_of-Keeps id = record {
      at = λ env w h.
          or_false_keeps env (can_start unmarshal id env w) ((can_start-Keeps id).at env w h);
    }

    keep_unblocked-Keeps : (items : List TaskItem) → Keeps P (keep_unblocked unmarshal items)
    unfolding keep_unblocked
    keep_unblocked-Keeps [] = Keeps-pure []
    keep_unblocked-Keeps (item ∷ items) =
        Keeps-if (item.status == "pending")
          (keep_item unmarshal item (keep_unblocked unmarshal items))
          (keep_unblocked unmarshal items)
          (λ _.
            Keeps-bind (or_false_of unmarshal item.id)
              (λ b.
                keep_unblocked unmarshal items >>= λ others. pure (kept unmarshal item b others))
              (or_false_of-Keeps item.id)
              (λ b.
                Keeps-bind (keep_unblocked unmarshal items)
                  (λ others. pure (kept unmarshal item b others)) (keep_unblocked-Keeps items)
                  (λ others. Keeps-pure _)))
          (λ _. keep_unblocked-Keeps items)

    pub list_by_context-Keeps : (context_id : String) → Keeps P (list_by_context context_id)
    unfolding list_by_context
    list_by_context-Keeps context_id = Keeps-query _

    pub list_unblocked-Keeps : (context_id : String) → Keeps P (list_unblocked unmarshal context_id)
    unfolding list_unblocked
    list_unblocked-Keeps context_id =
        Keeps-bind (list_by_context context_id) _ (list_by_context-Keeps context_id)
          keep_unblocked-Keeps

  -- The row that `id` names is there, and what it waits for is completed.
  abbrev startable : Env → Tasks → Option Row → Bool
  startable env t none = false
  startable env t (some r) = deps_done env t r

  start_deps_ok :
      (deps : Option (List String)) (env : Env) (w : World Tasks)
      → (start_deps unmarshal deps env w).0 ≡ ok true
      → deps_in env w.tables deps ≡ true
  unfolding raise
  start_deps_ok none env w h = cc
  start_deps_ok (some deps) env w h = all_completed_ok deps env w h

  start_item_ok :
      (env : Env) (w : World Tasks) (o : Option Row) (item : Option TaskItem)
      → scan_first o ≡ ok item
      → (start_item unmarshal item env w).0 ≡ ok true
      → startable env w.tables o ≡ true
  unfolding scan pure raise
  start_item_ok env w none item s h = ground arith
  start_item_ok env w (some r) item s h = grind (arith, start_deps_ok)

  -- CanStart says yes only of a task that is there and whose dependencies are completed.
  pub can_start_ok :
      (id : String) (env : Env) (w : World Tasks)
      → (can_start unmarshal id env w).0 ≡ ok true
      → startable env w.tables (find (has_id env id) w.tables) ≡ true
  unfolding can_start
  can_start_ok id env w h =
      let (item, got, next, _) = bind_ok (get id) (start_item unmarshal) env w h in
      subst (λ t. startable env t (find (has_id env id) w.tables) ≡ true) (get_same id env w)
        (start_item_ok env (get id env w).1 _ item (get_ok id env w item got) next)

  -- A change of the table that takes nothing back: what was done stays done.
  pub record Grows (env : Env) (t u : Tasks) : Type 0 where
    pub stays : (d : String) → is_done env t d ≡ true → is_done env u d ≡ true

  deps_in_mono :
      {env : Env} {t u : Tasks} (deps : Option (List String))
      → Grows env t u
      → deps_in env t deps ≡ true
      → deps_in env u deps ≡ true
  deps_in_mono none g h = h
  deps_in_mono {env} {t} {u} (some deps) g h =
      all_mono (is_done env t) (is_done env u) deps g.stays h

  deps_done_mono :
      {env : Env} {t u : Tasks} (r : Row)
      → Grows env t u
      → deps_done env t r ≡ true
      → deps_done env u r ≡ true
  deps_done_mono {env} {t} {u} r g h =
      ground (arith, deps_in_mono {env = env} {t = t} {u = u} (unmarshal r.blocked_by) g)

  Grows-update :
      (env : Env) (p : Row → Bool) (f : Row → Row) (t : Tasks)
      → ((r : Row) → (f r).id ≡ r.id)
      → ((r : Row)
          → p r ≡ true
          → r.status == "completed" ≡ true
          → (f r).status == "completed" ≡ true)
      → Grows env t (update p f t)
  Grows-update env p f t same keep = record {
    stays = λ d done.
        rw (find-update (has_id env d) p f (λ r. ap (same_text env d) (same r)) t)
          (patched (find (has_id env d) t) done);
  }
    where
      patched :
          (o : Option Row) → row_completed o ≡ true → row_completed (map_found (patch p f) o) ≡ true
      patched none h = h
      patched (some r) h = ground (arith, keep r)
