-- ===== src/Human/Revocation.antt =====
-- What the end of a session leaves of its token.
use a2a_platform_go.Prelude.{
  All-unit, ℕ, String, ◌≡◌, refl, sym, subst, true, false, Option, none, some, List, All,
  All-update, All-find, arith, is_some, find,
}
use a2a_platform_go.Sql.{Env, World, Result, ok}
use a2a_platform_go.Sql.Invert.{exec_ok, query_ok, ok_same}
use a2a_platform_go.Group.Tokens.{hash_access_token}
use a2a_platform_go.Human.{HumanSession, HumanTables}
use a2a_platform_go.Human.Sessions.{
  has_hash, is_live, revoke_rows, revoke, get_by_token, session_usable, human_session_usable,
}

module _ (env : Env) (token : String) where
  -- A session of the token is revoked.
  abbrev IsRevoked : HumanSession → Type 0
  IsRevoked s = has_hash env (hash_access_token env token) s ≡ true → is_some s.revoked_at ≡ true

  revoke-All :
      (w : World HumanTables) {u : Unit {0}}
      → (revoke token env w).0 ≡ ok u
      → All IsRevoked (revoke token env w).1.tables.sessions
  unfolding revoke
  revoke-All w done =
      subst (λ (t : HumanTables). All IsRevoked t.sessions)
        (sym (exec_ok (revoke_rows token) env w done))
        (All-update (λ _. Unit {0}) IsRevoked (is_live env token)
          (λ s. record s { revoked_at = some w.now }) w.tables.sessions (λ s hit _ held. refl)
          (λ s missed _ held. ground arith) (All-unit w.tables.sessions))

  unusable :
      (o : Option HumanSession) (sessions : List HumanSession) (now : ℕ)
      → find (has_hash env (hash_access_token env token)) sessions ≡ o
      → All IsRevoked sessions
      → human_session_usable o now ≡ false
  unfolding human_session_usable session_usable
  unusable none sessions now found all_revoked = refl
  unusable (some s) sessions now found all_revoked =
      let (dead, held) =
        All-find IsRevoked (has_hash env (hash_access_token env token)) sessions s found
          all_revoked in
      let gone = dead held in ground arith

  -- Once a session has been revoked, what is found for its token in the tables that this leaves is
  -- not usable, at any instant.
  pub revoke-human_session_usable :
      (w v : World HumanTables) (o : Option HumanSession) (now : ℕ)
      → (revoke token env w).0 ≡ ok tt
      → v.tables ≡ (revoke token env w).1.tables
      → (get_by_token token env v).0 ≡ ok o
      → human_session_usable o now ≡ false
  unfolding get_by_token
  revoke-human_session_usable w v o now done same found =
      let row : Env → World HumanTables → Result (Option HumanSession) =
        λ env w. ok (find (has_hash env (hash_access_token env token)) w.tables.sessions) in
      unusable o v.tables.sessions now
        (ok_same (find (has_hash env (hash_access_token env token)) v.tables.sessions) o
          (query_ok row env v found))
        (subst (λ (t : HumanTables). All IsRevoked t.sessions) (sym same) (revoke-All w done))
