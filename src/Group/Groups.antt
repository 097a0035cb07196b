-- ===== src/Group/Groups.antt =====
-- GroupStore: the table a2a_groups, with the primary key `id`.
use a2a_platform_go.Prelude.{
  ℕ, String, Bool, ◌&&◌, ◌||◌, Option, none, some, List, [], ◌∷◌, ◌++◌, ◌==◌, ◌=?◌, ltb,
  if◌then◌else◌, is_some, find, select, update,
}
use a2a_platform_go.Prelude.Text.{trim_space}
use a2a_platform_go.Sql.{
  Env, World, Sql, Result, ok, err, duplicate_key, pure, asks, statement, query, exec, draw, ◌>>=◌,
  ◌>>◌,
}
use a2a_platform_go.Group.{
  Group, GroupMember, Tables, same_text, normalize_group_mode, normalize_actor_type, or_default,
}

-- normalizeGroup of a group that has an identifier
unfoldable pub normalize_group : Group → Group
normalize_group g = record g {
  name = trim_space g.name;
  orchestration_mode = normalize_group_mode g.orchestration_mode;
  status = or_default "active" g.status;
}

abbrev with_id : Group → Sql Tables Group
with_id g =
    if g.id == ""
    then (do n ← draw; id ← asks (λ env w. env.identifier n); pure (record g { id = id }))
    else pure g

abbrev pub has_id : Env → String → Group → Bool
has_id env id g = same_text env id g.id

unfoldable pub insert_row : Group → Env → World Tables → Result (Unit {0}) × Tables
insert_row g env w =
    if is_some (find (has_id env g.id) w.tables.groups) then (err duplicate_key, w.tables) else (
      ok tt,
      record w.tables {
        groups = w.tables.groups ++ record g { created_at = w.now; updated_at = w.now } ∷ [];
      },
    )

unfoldable pub get : String → Sql Tables (Option Group)
unfolding query
get id = query (λ env w. ok (find (has_id env id) w.tables.groups))

abbrev or_given : Group → Option Group → Group
or_given g none = g
or_given g (some stored) = stored

-- Create, with what the caller's pointer holds afterwards.
unfoldable pub create : Group → Sql Tables Group
unfolding normalize_group insert_row get draw asks statement ◌>>=◌
create g = do
  identified ← with_id g
  let g' = normalize_group identified
  statement (insert_row g')
  stored ← get g'.id
  pure (or_given g' stored)

-- ORDER BY updated_at DESC, created_at DESC
abbrev before : Group → Group → Bool
before a b =
    ltb b.updated_at a.updated_at || (a.updated_at =? b.updated_at && ltb b.created_at a.created_at)

unfoldable pub insert_sorted : Group → List Group → List Group
insert_sorted g [] = g ∷ []
insert_sorted g (x ∷ xs) =
    let rest = insert_sorted g xs in if before x g then x ∷ rest else g ∷ x ∷ xs

unfoldable pub sort_groups : List Group → List Group
unfolding insert_sorted
sort_groups [] = []
sort_groups (g ∷ gs) = insert_sorted g (sort_groups gs)

abbrev has_status : Env → String → Group → Bool
has_status env status g = status == "" || same_text env g.status status

-- List, where an empty status stands for any
unfoldable pub list : String → Sql Tables (List Group)
unfolding query sort_groups
list status = query (λ env w. ok (sort_groups (select (has_status env status) w.tables.groups)))

abbrev is_member : Env → String → String → Group → GroupMember → Bool
is_member env actor_type actor_id g m =
    same_text env m.group_id g.id
    && same_text env m.actor_type actor_type
    && same_text env m.actor_id actor_id

-- one row of the join for each membership
unfoldable pub join_members : Env → String → String → List GroupMember → List Group → List Group
join_members env actor_type actor_id members [] = []
join_members env actor_type actor_id members (g ∷ gs) =
    repeat (select (is_member env actor_type actor_id g) members) g
    ++ join_members env actor_type actor_id members gs
  where
    repeat : List GroupMember → Group → List Group
    repeat [] g = []
    repeat (m ∷ ms) g = g ∷ repeat ms g

-- ListByActor
unfoldable pub list_by_actor : String → String → String → Sql Tables (List Group)
unfolding query sort_groups join_members
list_by_actor actor_type actor_id status = query (λ env w. ok (
    sort_groups (
      select (has_status env status) (
        join_members env (normalize_actor_type actor_type) (trim_space actor_id) w.tables.members
          w.tables.groups))))

abbrev edited : Group → ℕ → Group → Group
edited g now row = record row {
  name = g.name;
  description = g.description;
  orchestration_mode = g.orchestration_mode;
  rules_json = g.rules_json;
  memory_policy_json = g.memory_policy_json;
  status = g.status;
  updated_at = now;
}

-- Update; a group without an identifier is given one, which no row has.
unfoldable pub edit : Group → Sql Tables (Unit {0})
unfolding normalize_group draw asks exec ◌>>=◌
edit g = do
  identified ← with_id g
  let g' = normalize_group identified
  exec (λ env w. record w.tables {
    groups = update (has_id env g'.id) (edited g' w.now) w.tables.groups;
  })

-- Archive
unfoldable pub archive : String → Sql Tables (Unit {0})
unfolding exec
archive id = exec (λ env w. record w.tables {
  groups =
      update (has_id env id) (λ g. record g { status = "archived"; updated_at = w.now })
        w.tables.groups;
})
