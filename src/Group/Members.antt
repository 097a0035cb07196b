-- ===== src/Group/Members.antt =====
-- GroupMemberStore: the table group_members, with the unique key (group_id, actor_type, actor_id).
use Prim.Native.String.{compare}
use text.Mathlib.Text.{is_lt, is_eq}
use a2a_platform_go.Prelude.{
  ℕ, String, Bool, ◌&&◌, ◌||◌, Option, none, some, List, [], ◌∷◌, ◌++◌, if◌then◌else◌, is_some,
  find, select, update, delete,
}
use a2a_platform_go.Prelude.Text.{trim_space}
use a2a_platform_go.Sql.{Env, World, Sql, ok, pure, query, exec, draw, ◌>>=◌, ◌>>◌}
use a2a_platform_go.Group.{GroupMember, Tables, same_text, normalize_actor_type, or_default}

-- WHERE group_id = ? AND actor_type = ? AND actor_id = ?
abbrev pub is_actor : Env → String → String → String → GroupMember → Bool
is_actor env group_id actor_type actor_id m =
    same_text env group_id m.group_id
    && same_text env actor_type m.actor_type
    && same_text env actor_id m.actor_id

abbrev pub same_actor : Env → GroupMember → GroupMember → Bool
same_actor env m = is_actor env m.group_id m.actor_type m.actor_id

abbrev pub normalize_member : GroupMember → GroupMember
normalize_member m = record m {
  actor_type = normalize_actor_type m.actor_type;
  actor_id = trim_space m.actor_id;
  role = or_default "member" m.role;
}

-- INSERT … ON DUPLICATE KEY UPDATE role = VALUES(role), capabilities_json = …
unfoldable pub upsert_row : ℕ → GroupMember → Env → World Tables → Tables
upsert_row n m env w = record w.tables {
  members =
      if is_some (find (same_actor env m) w.tables.members)
      then update (same_actor env m)
          (λ old. record old { role = m.role; capabilities_json = m.capabilities_json })
          w.tables.members
      else w.tables.members ++ record m { id = n; joined_at = w.now } ∷ [];
}

unfoldable pub insert_member : GroupMember → Sql Tables (Unit {0})
unfolding draw exec ◌>>=◌
insert_member m = do n ← draw; exec (upsert_row n m)

unfoldable pub get : String → String → String → Sql Tables (Option GroupMember)
unfolding query
get group_id actor_type actor_id = query (λ env w. ok (
    find (is_actor env group_id (normalize_actor_type actor_type) (trim_space actor_id))
      w.tables.members))

abbrev pub or_given : GroupMember → Option GroupMember → GroupMember
or_given m none = m
or_given m (some stored) = stored

-- Upsert, with what the caller's pointer holds afterwards.
unfoldable pub upsert : GroupMember → Sql Tables GroupMember
unfolding insert_member get ◌>>=◌
upsert m =
    let m' = normalize_member m in
    do
      insert_member m'
      stored ← get m'.group_id m'.actor_type m'.actor_id
      pure (or_given m' stored)

-- Delete compares the actor's identifier as it is given.
unfoldable pub remove : String → String → String → Sql Tables (Unit {0})
unfolding exec
remove group_id actor_type actor_id = exec (λ env w. record w.tables {
  members =
      delete (is_actor env group_id (normalize_actor_type actor_type) actor_id) w.tables.members;
})

-- ORDER BY role, actor_type, actor_id
abbrev before : Env → GroupMember → GroupMember → Bool
before env a b =
    let role = compare (env.collation a.role) (env.collation b.role) in
    let actor_type = compare (env.collation a.actor_type) (env.collation b.actor_type) in
    let actor_id = compare (env.collation a.actor_id) (env.collation b.actor_id) in
    is_lt role || (is_eq role && (is_lt actor_type || (is_eq actor_type && is_lt actor_id)))

unfoldable pub insert_sorted : Env → GroupMember → List GroupMember → List GroupMember
insert_sorted env m [] = m ∷ []
insert_sorted env m (x ∷ xs) = if before env x m then x ∷ insert_sorted env m xs else m ∷ x ∷ xs

unfoldable pub sort_members : Env → List GroupMember → List GroupMember
unfolding insert_sorted
sort_members env [] = []
sort_members env (m ∷ ms) = insert_sorted env m (sort_members env ms)

unfoldable pub list : String → Sql Tables (List GroupMember)
unfolding query sort_members
list group_id = query (λ env w.
    ok (sort_members env (select (λ m. same_text env group_id m.group_id) w.tables.members)))
