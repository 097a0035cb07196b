-- ===== src/Task/Tests.antt =====
-- The task tools on concrete tables.
use a2a_platform_go.Prelude.{
  String, ◌≡◌, refl, none, some, List, [], ◌∷◌, map, All, find, update, select,
}
use a2a_platform_go.Prelude.Text.{split}
use a2a_platform_go.Json.{Args, str}
use a2a_platform_go.Sql.{Env, World}
use a2a_platform_go.Task.{Row, TaskItem, Tasks}
use a2a_platform_go.Task.Tools.{
  JsonStrings, Call, create_call, claim_call, complete_call, join, run_all,
}
use a2a_platform_go.Task.Order.{IsOrdered}
use a2a_platform_go.Task.Order.Run.{run_all-IsOrdered}
use a2a_platform_go.Task.Stuck.{run_all-IsFresh, IsFresh}

abbrev env : Env
env = record {
  collation = λ s. s;
  digest = λ s. s;
  identifier = λ n. "task_1";
  access_token = λ n. some "token";
}

-- Lists of texts without commas.
abbrev comma_list : JsonStrings
unfolding join split
comma_list = record { marshal = join ","; unmarshal = λ s. some (split b',' s) }

abbrev plain : TaskItem → String
plain item = item.subject

abbrev row : String → String → Row
row id blocked_by = record {
  id = id;
  context_id = "c";
  subject = id;
  description = "";
  status = "pending";
  owner = "";
  blocked_by = blocked_by;
  result = some "";
  error = some "";
  created_at = 0;
  completed_at = none;
}

abbrev world : Tasks → World Tasks
world tasks = record { tables = tasks; faults = []; seq = 1; now = 5 }

-- `b` waits for `a`.
abbrev two_tasks : Tasks
two_tasks = row "a" "" ∷ row "b" "a" ∷ []

abbrev call_of : String → Args
call_of id = ("task_id", str id) ∷ []

abbrev claim_b_twice : List Call
claim_b_twice =
    claim_call (call_of "b")
    ∷ claim_call (call_of "a")
    ∷ complete_call (call_of "a")
    ∷ claim_call (call_of "b")
    ∷ []

abbrev statuses : List Call → Tasks → List String
unfolding run_all
statuses calls tasks =
    map (λ (r : Row). r.status) (run_all comma_list plain calls env (world tasks)).tables

-- The first claim of `b` is refused, the second is not.
claim_b_twice-statuses : statuses claim_b_twice two_tasks ≡ "completed" ∷ "in_progress" ∷ []
unfolding run_all find comma_list update select
claim_b_twice-statuses = refl

two_tasks-IsOrdered : IsOrdered comma_list.unmarshal env two_tasks
unfolding find
two_tasks-IsOrdered = record { keyed = (refl, (refl, tt)); ordered = ((λ s. cc), ((λ s. cc), tt)) }

run_all-IsOrdered_example :
    IsOrdered comma_list.unmarshal env
      (run_all comma_list plain claim_b_twice env (world two_tasks)).tables
run_all-IsOrdered_example =
    run_all-IsOrdered comma_list env refl plain claim_b_twice (world two_tasks) two_tasks-IsOrdered

abbrev new_task : List Call
new_task =
    create_call (("subject", str "s") ∷ ("context_id", str "c") ∷ [])
    ∷ claim_call (call_of "task_1")
    ∷ []

-- The task that create_task makes stays pending, whoever claims it.
new_task-statuses : statuses new_task [] ≡ "pending" ∷ []
unfolding run_all find
new_task-statuses = refl

run_all-IsFresh_example : All IsFresh (run_all comma_list plain new_task env (world [])).tables
run_all-IsFresh_example = run_all-IsFresh comma_list env plain new_task (world []) tt
