-- ===== src/Human/Sessions.antt =====
-- HumanSessionStore: the table human_sessions; a session is stored by the hash of its token.
use a2a_platform_go.Prelude.{
  ℕ, ◌+◌, String, Bool, false, ◌&&◌, not, Option, none, some, [], ◌∷◌, ◌++◌, ◌=?◌, is_some, find,
  update, if◌then◌else◌,
}
use a2a_platform_go.Prelude.Text.{trim_space}
use a2a_platform_go.Sql.{
  Env, World, Sql, Result, ok, err, duplicate_key, pure, lift, asks, statement, query, exec, draw,
  ◌>>=◌, ◌>>◌,
}
use a2a_platform_go.Group.{same_text}
use a2a_platform_go.Group.Tokens.{drawn, hash_access_token, not_expired}
use a2a_platform_go.Human.{HumanSession, HumanTables}

abbrev pub has_hash : Env → String → HumanSession → Bool
has_hash env hash s = same_text env hash s.token_hash

abbrev insert_row : ℕ → HumanSession → Env → World HumanTables → Result (Unit {0}) × HumanTables
insert_row n s env w =
    if is_some (find (has_hash env s.token_hash) w.tables.sessions)
    then (err duplicate_key, w.tables)
    else (
      ok tt,
      record w.tables {
        sessions = w.tables.sessions ++ record s { id = n; created_at = w.now } ∷ [];
      },
    )

abbrev expiry : ℕ → ℕ → Option ℕ
expiry ttl now = if ttl =? 0 then none else some (now + ttl)

abbrev new_session : String → String → Option ℕ → HumanSession
new_session human_id hash expires_at = record {
  id = 0;
  human_id = trim_space human_id;
  token_hash = hash;
  expires_at = expires_at;
  revoked_at = none;
  created_at = 0;
}

-- Create, with a time to live of zero for none: the session and its token.
unfoldable pub create : String → ℕ → Sql HumanTables (HumanSession × String)
unfolding draw asks lift statement find ◌>>=◌
create human_id ttl = do
  n ← draw
  token ← asks (λ env w. env.access_token n)
  plain ← lift (drawn token)
  session ← asks (λ env w. new_session human_id (hash_access_token env plain) (expiry ttl w.now))
  row ← draw
  statement (insert_row row session)
  pure (record session { id = row }, plain)

unfoldable pub get_by_token : String → Sql HumanTables (Option HumanSession)
unfolding query find
get_by_token token =
    query (λ env w. ok (find (has_hash env (hash_access_token env token)) w.tables.sessions))

abbrev pub is_live : Env → String → HumanSession → Bool
is_live env token s = has_hash env (hash_access_token env token) s && not (is_some s.revoked_at)

abbrev pub revoke_rows : String → Env → World HumanTables → HumanTables
revoke_rows token env w = record w.tables {
  sessions =
      update (is_live env token) (λ s. record s { revoked_at = some w.now }) w.tables.sessions;
}

unfoldable pub revoke : String → Sql HumanTables (Unit {0})
unfolding exec update
revoke token = exec (revoke_rows token)

-- HumanSessionUsable
unfoldable pub session_usable : HumanSession → ℕ → Bool
session_usable s now = not (is_some s.revoked_at) && not_expired s.expires_at now

unfoldable pub human_session_usable : Option HumanSession → ℕ → Bool
unfolding session_usable
human_session_usable none now = false
human_session_usable (some s) now = session_usable s now
