-- ===== src/Human/Deletion.antt =====
-- What the deletion of a person leaves.
use a2a_platform_go.Prelude.{
  All-unit, String, ◌≡◌, sym, ◌∙◌, subst, ap, Bool, false, List, All, All-delete, delete,
}
use a2a_platform_go.Prelude.Text.{trim_space}
use a2a_platform_go.Sql.{Env, World, Sql, ok, statement, exec, ◌>>◌}
use a2a_platform_go.Sql.Invert.{bind_ok, exec_ok, statement_ok, begin, transaction_ok}
use a2a_platform_go.Human.{HumanTables}
use a2a_platform_go.Human.Users.{
  has_id, of_human, token_of, member_of, revoke_sessions, revoke_tokens, delete_tokens,
  delete_members, delete_sessions, delete_user, delete_body, remove,
}

-- No row of the tables is about the person.
pub record IsGone (env : Env) (id : String) (tables : HumanTables) : Type 0 where
  pub no_user : All (λ u. has_id env id u ≡ false) tables.users
  pub no_session : All (λ s. of_human env id s ≡ false) tables.sessions
  pub no_token : All (λ t. token_of env id t ≡ false) tables.base.tokens
  pub no_member : All (λ m. member_of env id m ≡ false) tables.base.members

All-deleted : {A : Type 0} (p : A → Bool) (xs : List A) → All (λ x. p x ≡ false) (delete p xs)
All-deleted p xs =
    All-delete (λ _. Unit {0}) (λ x. p x ≡ false) p xs (λ x missed _. missed) (All-unit xs)

module _ {A : Type 0} (f : Env → World HumanTables → HumanTables) (rest : Sql HumanTables A)
    (env : Env) (w : World HumanTables) where
  -- An accepted statement and what follows it.
  then_ok :
      {a : A}
      → ((exec f >> rest) env w).0 ≡ ok a
      → (v : World HumanTables) × (v.tables ≡ f env w)
        × ((rest env v).0 ≡ ok a)
        × ((exec f >> rest) env w ≡ rest env v)
  then_ok h =
      let (one, accepted, next, same) = bind_ok (exec f) (λ _. rest) env w h in
      ((exec f env w).1, exec_ok f env w accepted, next, same)

module _ (env : Env) where
  delete_body-IsGone :
      (id : String) (w : World HumanTables) {b : Bool}
      → (delete_body id env w).0 ≡ ok b
      → IsGone env id (delete_body id env w).1.tables
  unfolding delete_body
  delete_body-IsGone id w h =
      let last = statement (delete_user id) in
      let five = exec (delete_sessions id) >> last in
      let four = exec (delete_members id) >> five in
      let three = exec (delete_tokens id) >> four in
      let two = exec (revoke_tokens id) >> three in
      let (w1, t1, h1, s1) = then_ok (revoke_sessions id) two env w h in
      let (w2, t2, h2, s2) = then_ok (revoke_tokens id) three env w1 h1 in
      let (w3, t3, h3, s3) = then_ok (delete_tokens id) four env w2 h2 in
      let (w4, t4, h4, s4) = then_ok (delete_members id) five env w3 h3 in
      let (w5, t5, h5, s5) = then_ok (delete_sessions id) last env w4 h4 in
      let (_, t6) = statement_ok (delete_user id) env w5 h5 in
      let end : (delete_body id env w).1.tables ≡ (delete_user id env w5).1 =
        ap (λ r. r.1.tables) (s1 ∙ s2 ∙ s3 ∙ s4 ∙ s5) ∙ t6 in
      let sessions : w5.tables.sessions ≡ delete (of_human env id) w4.tables.sessions =
        ap (λ t. t.sessions) t5 in
      let members : w5.tables.base.members ≡ delete (member_of env id) w3.tables.base.members =
        ap (λ t. t.base.members) (t5) ∙ ap (λ t. t.base.members) t4 in
      let tokens : w5.tables.base.tokens ≡ delete (token_of env id) w2.tables.base.tokens =
        ap (λ t. t.base.tokens) t5 ∙ ap (λ t. t.base.tokens) t4 ∙ ap (λ t. t.base.tokens) t3 in
      subst (IsGone env id) (sym end) (record {
        no_user = All-deleted (has_id env id) w5.tables.users;
        no_session =
            subst (All (λ s. of_human env id s ≡ false)) (sym sessions)
              (All-deleted (of_human env id) w4.tables.sessions);
        no_token =
            subst (All (λ t. token_of env id t ≡ false)) (sym tokens)
              (All-deleted (token_of env id) w2.tables.base.tokens);
        no_member =
            subst (All (λ m. member_of env id m ≡ false)) (sym members)
              (All-deleted (member_of env id) w3.tables.base.members);
      })

  -- Where the deletion of a person reports no error, no user, session, member's token or member of
  -- any group is left that is this person.
  pub remove-IsGone :
      (id : String) (w : World HumanTables) (b : Bool)
      → (remove id env w).0 ≡ ok b
      → IsGone env (trim_space id) (remove id env w).1.tables
  unfolding remove
  remove-IsGone id w b h =
      let (body, committed) = transaction_ok (delete_body (trim_space id)) env w h in
      subst (IsGone env (trim_space id)) (sym committed)
        (delete_body-IsGone (trim_space id) (begin env w) body)
