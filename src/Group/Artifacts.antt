-- ===== src/Group/Artifacts.antt =====
-- GroupArtifactStore: the documents of a group, with the primary key `id`, each with a version.
use a2a_platform_go.Prelude.{
  ℕ, ◌+◌, String, Bool, ◌&&◌, Option, none, some, [], ◌∷◌, ◌++◌, ◌==◌, ◌=?◌, if◌then◌else◌, is_some,
  find, update,
}
use a2a_platform_go.Prelude.Text.{trim_space}
use a2a_platform_go.Sql.{
  Env, World, Sql, Result, ok, err, failure, duplicate_key, pure, raise, asks, statement, query,
  exec, draw, ◌>>=◌, ◌>>◌,
}
use a2a_platform_go.Group.{GroupArtifact, Tables, same_text, or_default}

abbrev pub has_id : Env → String → GroupArtifact → Bool
has_id env id a = same_text env id a.id

-- INSERT INTO group_artifacts
unfoldable pub insert_row : GroupArtifact → Env → World Tables → Result (Unit {0}) × Tables
insert_row a env w =
    if is_some (find (has_id env a.id) w.tables.artifacts) then (err duplicate_key, w.tables) else (
      ok tt,
      record w.tables {
        artifacts = w.tables.artifacts ++ record a { created_at = w.now; updated_at = w.now } ∷ [];
      },
    )

unfoldable pub get : String → Sql Tables (Option GroupArtifact)
unfolding query
get id = query (λ env w. ok (find (has_id env id) w.tables.artifacts))

abbrev pub is_called : Env → String → String → GroupArtifact → Bool
is_called env group_id name a = same_text env group_id a.group_id && same_text env name a.name

unfoldable pub get_by_name : String → String → Sql Tables (Option GroupArtifact)
unfolding query
get_by_name group_id name =
    query (λ env w. ok (find (is_called env group_id name) w.tables.artifacts))

abbrev or_given : GroupArtifact → Option GroupArtifact → GroupArtifact
or_given a none = a
or_given a (some stored) = stored

abbrev with_id : GroupArtifact → Sql Tables GroupArtifact
with_id a =
    if a.id == ""
    then (do n ← draw; id ← asks (λ env w. env.identifier n); pure (record a { id = id }))
    else pure a

abbrev with_defaults : GroupArtifact → GroupArtifact
with_defaults a = record a {
  artifact_type = or_default "document" a.artifact_type;
  status = or_default "draft" a.status;
  version = if a.version =? 0 then 1 else a.version;
}

-- Create, with what the caller's pointer holds afterwards.
unfoldable pub create : GroupArtifact → Sql Tables GroupArtifact
unfolding insert_row get draw asks statement ◌>>=◌
create a = do
  identified ← with_id a
  let a' = with_defaults identified
  statement (insert_row a')
  stored ← get a'.id
  pure (or_given a' stored)

abbrev is_edited : Env → GroupArtifact → GroupArtifact → Bool
is_edited env a row = has_id env a.id row && same_text env a.group_id row.group_id

abbrev edited : GroupArtifact → ℕ → GroupArtifact → GroupArtifact
edited a now row = record row {
  name = a.name;
  artifact_type = a.artifact_type;
  version = row.version + 1;
  content = a.content;
  status = a.status;
  updated_at = now;
}

-- Update
unfoldable pub edit : GroupArtifact → Sql Tables (Unit {0})
unfolding exec
edit a =
    if a.id == ""
    then raise (failure "artifact id is required")
    else exec (λ env w. record w.tables {
      artifacts = update (is_edited env a) (edited a w.now) w.tables.artifacts;
    })

abbrev pub merged : GroupArtifact → GroupArtifact → GroupArtifact
merged a existing = record a {
  id = existing.id;
  artifact_type = or_default existing.artifact_type a.artifact_type;
  status = or_default existing.status a.status;
}

abbrev pub replaced : GroupArtifact → Option GroupArtifact → Sql Tables GroupArtifact
replaced a none = create a
replaced a (some existing) = do
  let a' = merged a existing
  edit a'
  stored ← get a'.id
  pure (or_given a' stored)

-- UpsertByName, with what the caller's pointer holds afterwards.
unfoldable pub upsert_by_name : GroupArtifact → Sql Tables GroupArtifact
unfolding get_by_name create edit get ◌>>=◌
upsert_by_name a =
    if a.group_id == ""
    then raise (failure "group id is required")
    else if trim_space a.name == ""
    then raise (failure "artifact name is required")
    else (do existing ← get_by_name a.group_id a.name; replaced a existing)
