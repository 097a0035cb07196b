-- ===== src/Task.antt =====
-- internal/svc/task_item_store.go: the tasks of the Task System, a table with the primary key `id`.
-- `result` and `error` may be NULL, and TaskItemStore.Get and ListByContext scan them into strings.
use a2a_platform_go.Prelude.{
  ℕ, String, Bool, true, false, ◌&&◌, Option, none, some, List, [], ◌∷◌, ◌++◌, ◌==◌, leb,
  if◌then◌else◌, is_some, find, select, update, ◌||◌, ◌≡◌,
}
pub mod Tools
pub mod Order
pub mod Reads
pub mod Stuck
mod Tests
use Prim.Native.String
use a2a_platform_go.Sql.{
  Env, World, Sql, Result, ok, err, null_column, duplicate_key, failure, pure, raise, lift, asks,
  statement, query, exec, ◌>>=◌, ◌>>◌,
}

-- A row of task_items.
pub record Row : Type 0 where
  pub id : String
  pub context_id : String
  pub subject : String
  pub description : String
  pub status : String
  pub owner : String
  pub blocked_by : String
  pub result : Option String
  pub error : Option String
  pub created_at : ℕ
  pub completed_at : Option ℕ

-- model.TaskItem
pub record TaskItem : Type 0 where
  pub id : String
  pub context_id : String
  pub subject : String
  pub description : String
  pub status : String
  pub owner : String
  pub blocked_by : String
  pub result : String
  pub error : String
  pub created_at : ℕ
  pub completed_at : Option ℕ

abbrev pub Tasks : Type 0
Tasks = List Row

-- `=` of MySQL between texts: equality of the collation's sort keys.
abbrev pub same_text : Env → String → String → Bool
same_text env a b = env.collation a == env.collation b

-- WHERE id = ?
abbrev pub has_id : Env → String → Row → Bool
has_id env id r = same_text env id r.id

abbrev scanned : Row → Option String → Option String → Result TaskItem
scanned r (some result) (some error) = ok (record {
  id = r.id;
  context_id = r.context_id;
  subject = r.subject;
  description = r.description;
  status = r.status;
  owner = r.owner;
  blocked_by = r.blocked_by;
  result = result;
  error = error;
  created_at = r.created_at;
  completed_at = r.completed_at;
})
scanned r _ _ = err null_column

-- rows.Scan of a row: NULL is no value of a Go string.
unfoldable pub scan : Row → Result TaskItem
scan r = scanned r r.result r.error

abbrev scan_first : Option Row → Result (Option TaskItem)
scan_first none = ok none
scan_first (some r) = elim (scan r) [ ok item ↦ ok (some item) | err e ↦ err e ]

abbrev scan_all : List Row → Result (List TaskItem)
scan_all [] = ok []
scan_all (r ∷ rs) = elim (scan r) [
  | err e ↦ err e
  | ok item ↦ elim (scan_all rs) [ err e ↦ err e | ok items ↦ ok (item ∷ items) ]
]

unfoldable pub insert_row : Row → Env → World Tasks → Result (Unit {0}) × Tasks
insert_row r env w =
    if is_some (find (has_id env r.id) w.tables)
    then (err duplicate_key, w.tables)
    else (ok tt, w.tables ++ r ∷ [])

-- Create: the columns result, error and completed_at are not named, so they are NULL.
unfoldable pub create : TaskItem → Sql Tasks (Unit {0})
unfolding insert_row statement
create item = statement (
    insert_row (record {
      id = item.id;
      context_id = item.context_id;
      subject = item.subject;
      description = item.description;
      status = item.status;
      owner = item.owner;
      blocked_by = item.blocked_by;
      result = none;
      error = none;
      created_at = item.created_at;
      completed_at = none;
    }))

unfoldable pub get : String → Sql Tasks (Option TaskItem)
unfolding query scan
get id = query (λ env w. scan_first (find (has_id env id) w.tables))

-- ORDER BY created_at ASC, rows of one instant in the order of the table.
unfoldable pub by_creation : Row → List Row → List Row
by_creation r [] = r ∷ []
by_creation r (x ∷ xs) = if leb r.created_at x.created_at then r ∷ x ∷ xs else x ∷ by_creation r xs

unfoldable pub sort : List Row → List Row
unfolding by_creation
sort [] = []
sort (r ∷ rs) = by_creation r (sort rs)

unfoldable pub list_by_context : String → Sql Tasks (List TaskItem)
unfolding query scan sort
list_by_context context_id =
    query (λ env w. scan_all (sort (select (λ r. same_text env context_id r.context_id) w.tables)))

abbrev is_final : String → Bool
is_final status = status == "completed" || status == "failed"

unfoldable pub update_status : String → String → String → String → Sql Tasks (Unit {0})
unfolding exec
update_status id status result error = exec (λ env w.
    update (has_id env id)
      (λ r. record r {
        status = status;
        result = some result;
        error = some error;
        completed_at = if is_final status then some w.now else none;
      })
      w.tables)

abbrev pub is_pending : Env → String → Row → Bool
is_pending env id r = has_id env id r && same_text env "pending" r.status

-- RowsAffected of the UPDATE in Claim: it changes the status of each row that it selects.
abbrev claimed : String → String → Bool → Result (Unit {0})
claimed id owner true = ok tt
claimed id owner false =
    err (failure (String.◌++◌ "task item " (String.◌++◌ id " is not pending or does not exist")))

unfoldable pub claim : String → String → Sql Tasks (Unit {0})
unfolding statement
claim id owner = statement (λ env w. (
  claimed id owner (is_some (find (is_pending env id) w.tables)),
  update (is_pending env id) (λ r. record r { owner = owner; status = "in_progress" }) w.tables,
))

-- The decoder of `blocked_by`: json.Unmarshal into a []string.
module _ (unmarshal : String → Option (List String)) where
  -- dep == nil || dep.Status != "completed"
  abbrev is_completed : Option TaskItem → Bool
  is_completed none = false
  is_completed (some dep) = dep.status == "completed"

  -- the loop of CanStart
  unfoldable pub all_completed : List String → Sql Tasks Bool
  unfolding get ◌>>=◌
  all_completed [] = pure true
  all_completed (dep_id ∷ deps) =
      let rest = all_completed deps in
      do dep ← get dep_id; if is_completed dep then rest else pure false

  abbrev start_deps : Option (List String) → Sql Tasks Bool
  start_deps none = raise (failure "invalid blocked_by JSON")
  start_deps (some deps) = all_completed deps

  abbrev start_item : Option TaskItem → Sql Tasks Bool
  start_item none = pure false
  start_item (some item) =
      if item.blocked_by == "" then pure true else start_deps (unmarshal item.blocked_by)

  unfoldable pub can_start : String → Sql Tasks Bool
  unfolding all_completed
  can_start id = do item ← get id; start_item item

  -- `ok, _ := s.CanStart(item.ID)`: an error counts as false.
  abbrev or_false : Result Bool × World Tasks → Result Bool × World Tasks
  or_false (ok b, w) = (ok b, w)
  or_false (err e, w) = (ok false, w)

  abbrev or_false_of : String → Sql Tasks Bool
  or_false_of id env w = or_false (can_start id env w)

  abbrev kept : TaskItem → Bool → List TaskItem → List TaskItem
  kept item startable others = if startable then item ∷ others else others

  abbrev keep_item : TaskItem → Sql Tasks (List TaskItem) → Sql Tasks (List TaskItem)
  keep_item item rest = do
    startable ← or_false_of item.id
    others ← rest
    pure (kept item startable others)

  unfoldable pub keep_unblocked : List TaskItem → Sql Tasks (List TaskItem)
  unfolding can_start
  keep_unblocked [] = pure []
  keep_unblocked (item ∷ items) =
      let rest = keep_unblocked items in
      if item.status == "pending" then keep_item item rest else rest

  unfoldable pub list_unblocked : String → Sql Tasks (List TaskItem)
  unfolding list_by_context keep_unblocked
  list_unblocked context_id = do items ← list_by_context context_id; keep_unblocked items
