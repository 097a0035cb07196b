-- ===== src/Group/Invites/Admit.antt =====
-- The part of ConsumeAndCreateMemberToken that follows the consumption leaves the invites alone.
use a2a_platform_go.Prelude.{
  ℕ, String, ◌≡◌, refl, Option, none, some, List, find, Bool-cases, inl, inr, is_some,
}
use a2a_platform_go.Sql.{Env, World, Sql, pure, statement, exec, draw, asks, lift, ◌>>=◌, ◌>>◌}
use a2a_platform_go.Sql.Keeps.{
  Keeps, Keeps-bind, Keeps-pure, Keeps-raise, Keeps-exec, Keeps-query, Keeps-draw, Keeps-asks,
  Keeps-statement, Keeps-lift,
}
use a2a_platform_go.Group.{GroupMember, GroupMemberToken, Tables}
use a2a_platform_go.Group.Members
use a2a_platform_go.Group.Tokens
use a2a_platform_go.Group.Invites.{present, admit}

-- Tables with the same invites.
module _ (P : Env → Tables → Type 0)
    (apart : (env : Env) (t u : Tables) → t.invites ≡ u.invites → P env t → P env u) where
  insert_member-Keeps : (m : GroupMember) → Keeps P (Members.insert_member m)
  unfolding Members.insert_member Members.upsert_row
  insert_member-Keeps m =
      Keeps-bind draw (λ n. exec (Members.upsert_row n m)) Keeps-draw
        (λ n. Keeps-exec (Members.upsert_row n m) (λ env w h. apart env _ _ refl h))

  insert_token_keeps :
      (n : ℕ) (t : GroupMemberToken) (env : Env) (w : World Tables)
      → P env w.tables
      → P env (Tokens.insert_row n t env w).1
  unfolding Tokens.insert_row
  insert_token_keeps n t env w h =
      elim (Bool-cases (is_some (find (Tokens.has_hash env t.token_hash) w.tables.tokens))) [
        | inl taken ↦ rw taken h
        | inr free ↦ rw free (apart env _ _ refl h)
      ]

  token-Keeps : Keeps P Tokens.new_access_token
  unfolding Tokens.new_access_token
  token-Keeps =
      Keeps-bind draw (λ n. asks (λ env w. env.access_token n) >>= λ o. lift (Tokens.drawn o))
        Keeps-draw
        (λ n.
          Keeps-bind (asks (λ env w. env.access_token n)) (λ o. lift (Tokens.drawn o))
            (Keeps-asks _) (λ o. Keeps-lift _))

  insert_token-Keeps : (t : GroupMemberToken) → Keeps P (Tokens.insert_token t)
  unfolding Tokens.insert_token
  insert_token-Keeps t =
      Keeps-bind draw (λ n. statement (Tokens.insert_row n t)) Keeps-draw
        (λ n. Keeps-statement (Tokens.insert_row n t) (insert_token_keeps n t))

  create_token-Keeps : (t : GroupMemberToken) → Keeps P (Tokens.create t)
  unfolding Tokens.create
  create_token-Keeps t =
      let rest : String → String → Sql Tables String = λ plain hash.
        Tokens.insert_token (record (Tokens.normalize_token t) { token_hash = hash })
        >> pure plain in
      let hash : String → Sql Tables String =
        λ plain. asks (λ env w. Tokens.hash_access_token env plain) in
      Keeps-bind Tokens.new_access_token (λ plain. hash plain >>= rest plain) token-Keeps
        (λ plain. Keeps-bind (hash plain) (rest plain) (Keeps-asks _) (λ h.
          let stored = record (Tokens.normalize_token t) { token_hash = h } in
          Keeps-bind (Tokens.insert_token stored) (λ _. pure plain) (insert_token-Keeps stored)
            (λ _. Keeps-pure plain)))

  present-Keeps : (o : Option GroupMember) → Keeps P (present o)
  present-Keeps none = Keeps-raise _
  present-Keeps (some m) = Keeps-pure m

  get-Keeps : (g a i : String) → Keeps P (Members.get g a i)
  unfolding Members.get
  get-Keeps g a i = Keeps-query _

  list-Keeps : (g : String) → Keeps P (Members.list g)
  unfolding Members.list
  list-Keeps g = Keeps-query _

  -- What follows the consumption leaves the invites alone.
  pub admit-Keeps : (m : GroupMember) (t : GroupMemberToken) → Keeps P (admit m t)
  unfolding admit
  admit-Keeps member t =
      let m = Members.normalize_member member in
      let finish : GroupMember
          → List GroupMember
          → Sql Tables (GroupMember × List GroupMember × String) =
        λ joined members. Tokens.create t >>= λ plain. pure (joined, members, plain) in
      let listed : GroupMember → Sql Tables (GroupMember × List GroupMember × String) =
        λ joined. Members.list joined.group_id >>= finish joined in
      let read : Option GroupMember → Sql Tables (GroupMember × List GroupMember × String) =
        λ stored. present stored >>= listed in
      Keeps-bind (Members.insert_member m)
        (λ _. Members.get m.group_id m.actor_type m.actor_id >>= read) (insert_member-Keeps m)
        (λ _.
          Keeps-bind (Members.get m.group_id m.actor_type m.actor_id) read (get-Keeps _ _ _)
            (λ stored. Keeps-bind (present stored) listed (present-Keeps stored) (λ joined.
              Keeps-bind (Members.list joined.group_id) (finish joined) (list-Keeps _) (λ members.
                Keeps-bind (Tokens.create t) (λ plain. pure (joined, members, plain))
                  (create_token-Keeps t) (λ plain. Keeps-pure _)))))
