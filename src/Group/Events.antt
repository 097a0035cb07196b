-- ===== src/Group/Events.antt =====
-- GroupEventStore: the messages of a group, in the order of their numbers.
use a2a_platform_go.Prelude.{
  ℕ, String, ◌||◌, Option, none, some, List, [], ◌∷◌, ◌++◌, ◌=?◌, ltb, if◌then◌else◌, find, select,
  take, reverse,
}
use a2a_platform_go.Prelude.Text.{trim_space}
use a2a_platform_go.Sql.{Env, World, Sql, ok, pure, query, exec, draw, ◌>>=◌, ◌>>◌}
use a2a_platform_go.Group.{GroupEvent, Tables, same_text, normalize_actor_type, or_default}

unfoldable pub normalize_event : GroupEvent → GroupEvent
normalize_event e = record e {
  event_type = or_default "message" (trim_space e.event_type);
  sender_type = normalize_actor_type e.sender_type;
}

abbrev insert_row : ℕ → GroupEvent → Env → World Tables → Tables
insert_row n e env w = record w.tables {
  events = w.tables.events ++ record e { id = n; created_at = w.now } ∷ [];
}

unfoldable pub insert_event : GroupEvent → Sql Tables ℕ
unfolding draw exec ◌>>=◌
insert_event e = do n ← draw; exec (insert_row n e); pure n

unfoldable pub get : ℕ → Sql Tables (Option GroupEvent)
unfolding query
get id = query (λ env w. ok (find (λ (e : GroupEvent). id =? e.id) w.tables.events))

abbrev pub or_given : GroupEvent → Option GroupEvent → GroupEvent
or_given e none = e
or_given e (some stored) = stored

-- Append, with what the caller's pointer holds afterwards.
unfoldable pub append : GroupEvent → Sql Tables GroupEvent
unfolding normalize_event insert_event get ◌>>=◌
append e =
    let e' = normalize_event e in
    do n ← insert_event e'; stored ← get n; pure (or_given (record e' { id = n }) stored)

-- ORDER BY id DESC
unfoldable pub insert_sorted : GroupEvent → List GroupEvent → List GroupEvent
insert_sorted e [] = e ∷ []
insert_sorted e (x ∷ xs) =
    let rest = insert_sorted e xs in if ltb e.id x.id then x ∷ rest else e ∷ x ∷ xs

unfoldable pub newest_first : List GroupEvent → List GroupEvent
unfolding insert_sorted
newest_first [] = []
newest_first (e ∷ es) = insert_sorted e (newest_first es)

-- The limit that List works with; 0 stands for every number that is not positive.
unfoldable pub event_limit : ℕ → ℕ
event_limit limit = if limit =? 0 || ltb 200 limit then 50 else limit

-- The newest events of the group, oldest first.
unfoldable pub list_rows : String → ℕ → Env → World Tables → List GroupEvent
unfolding newest_first event_limit
list_rows group_id limit env w = reverse (
    take (event_limit limit) (
      newest_first
        (select (λ (e : GroupEvent). same_text env group_id e.group_id) w.tables.events)))

unfoldable pub list : String → ℕ → Sql Tables (List GroupEvent)
unfolding query list_rows
list group_id limit = query (λ env w. ok (list_rows group_id limit env w))
