-- ===== src/Group/Tokens.antt =====
-- GroupMemberTokenStore and the access tokens: a token is stored by its hash.
use a2a_platform_go.Prelude.{
  ℕ, String, Bool, true, false, ◌&&◌, Option, none, some, [], ◌∷◌, ◌++◌, leb, not, if◌then◌else◌,
  is_some, find, update,
}
use a2a_platform_go.Prelude.Text.{trim_space}
use a2a_platform_go.Sql.{
  Env, World, Sql, Result, ok, err, no_entropy, duplicate_key, pure, lift, asks, statement, query,
  exec, draw, ◌>>=◌, ◌>>◌,
}
use a2a_platform_go.Group.{GroupMemberToken, Tables, same_text, normalize_actor_type}

abbrev pub drawn : Option String → Result String
drawn none = err no_entropy
drawn (some token) = ok token

-- NewAccessToken
unfoldable pub new_access_token : Sql Tables String
unfolding draw asks lift ◌>>=◌
new_access_token = do n ← draw; token ← asks (λ env w. env.access_token n); lift (drawn token)

-- HashAccessToken
abbrev pub hash_access_token : Env → String → String
hash_access_token env token = env.digest (trim_space token)

abbrev pub has_hash : Env → String → GroupMemberToken → Bool
has_hash env hash t = same_text env hash t.token_hash

-- INSERT INTO group_member_tokens: token_hash is UNIQUE.
unfoldable pub insert_row : ℕ → GroupMemberToken → Env → World Tables → Result ℕ × Tables
insert_row n t env w =
    if is_some (find (has_hash env t.token_hash) w.tables.tokens)
    then (err duplicate_key, w.tables)
    else (
      ok n,
      record w.tables { tokens = w.tables.tokens ++ record t { id = n; created_at = w.now } ∷ [] },
    )

unfoldable pub insert_token : GroupMemberToken → Sql Tables ℕ
unfolding draw statement insert_row ◌>>=◌
insert_token t = do n ← draw; statement (insert_row n t)

abbrev pub normalize_token : GroupMemberToken → GroupMemberToken
normalize_token t = record t {
  group_id = trim_space t.group_id;
  actor_type = normalize_actor_type t.actor_type;
  actor_id = trim_space t.actor_id;
}

-- Create
unfoldable pub create : GroupMemberToken → Sql Tables String
unfolding new_access_token insert_token asks ◌>>=◌
create t = do
  plain ← new_access_token
  hash ← asks (λ env w. hash_access_token env plain)
  insert_token (record (normalize_token t) { token_hash = hash })
  pure plain

unfoldable pub get_by_token : String → Sql Tables (Option GroupMemberToken)
unfolding query
get_by_token token =
    query (λ env w. ok (find (has_hash env (hash_access_token env token)) w.tables.tokens))

abbrev pub holds_for : Env → String → String → String → GroupMemberToken → Bool
holds_for env group_id actor_type actor_id t =
    same_text env group_id t.group_id
    && same_text env actor_type t.actor_type
    && same_text env actor_id t.actor_id

abbrev pub is_live_for : Env → String → String → String → GroupMemberToken → Bool
is_live_for env group_id actor_type actor_id t =
    holds_for env group_id actor_type actor_id t && not (is_some t.revoked_at)

abbrev pub revoked_now : ℕ → GroupMemberToken → GroupMemberToken
revoked_now now t = record t { revoked_at = some now }

abbrev pub revoke_rows : String → String → String → Env → World Tables → Tables
revoke_rows group_id actor_type actor_id env w = record w.tables {
  tokens =
      update (is_live_for env group_id (normalize_actor_type actor_type) (trim_space actor_id))
        (revoked_now w.now) w.tables.tokens;
}

-- RevokeActor
unfoldable pub revoke_actor : String → String → String → Sql Tables (Unit {0})
unfolding exec
revoke_actor group_id actor_type actor_id = exec (revoke_rows group_id actor_type actor_id)

-- `expires_at` is after the instant, or there is none.
abbrev pub not_expired : Option ℕ → ℕ → Bool
not_expired none now = true
not_expired (some t) now = not (leb t now)

-- MemberTokenUsable of a token that was found.
unfoldable pub token_usable : GroupMemberToken → ℕ → Bool
token_usable t now = not (is_some t.revoked_at) && not_expired t.expires_at now

-- MemberTokenUsable
unfoldable pub member_token_usable : Option GroupMemberToken → ℕ → Bool
unfolding token_usable
member_token_usable none now = false
member_token_usable (some t) now = token_usable t now
