-- ===== src/Auth/Joined.antt =====
-- Joining by an invite and authMiddleware: the token that a join returns proves the membership.
use a2a_platform_go.Prelude.{
  ℕ, ◌+◌, String, ◌≡◌, refl, sym, ◌∙◌, ap, subst, Bool, true, inl, inr, Option, none, some, List,
  [], ◌∷◌, find, select, Option-cases, eq_refl,
}
use a2a_platform_go.Prelude.Text.{trim_space}
use a2a_platform_go.Prelude.Tables.{find-append}
use a2a_platform_go.Sql.{
  Env, World, Sql, Result, ok, err, duplicate_key, pure, raise, asks, ◌>>=◌, ◌>>◌,
}
use a2a_platform_go.Sql.Invert.{
  bind_ok, ok_same, statement_ok, query_ok, query_same, begin, transaction_ok,
}
use a2a_platform_go.Group.{GroupMember, GroupMemberToken, Tables, same_text, normalize_actor_type}
use a2a_platform_go.Group.Members
use a2a_platform_go.Group.Members.{is_actor}
use a2a_platform_go.Group.Tokens
use a2a_platform_go.Group.Tokens.{
  has_hash, hash_access_token, normalize_token, token_usable, not_expired,
}
use a2a_platform_go.Group.Invites.{
  present, admit, consume, join_body, consume_and_create_member_token,
}
use a2a_platform_go.Auth.{Headers, presented_token}
use a2a_platform_go.Auth.Principal.{IsProved}

-- The row that is stored of a token.
abbrev row_of : ℕ → ℕ → String → GroupMemberToken → GroupMemberToken
row_of n now hash t = record (normalize_token t) { token_hash = hash; id = n; created_at = now }

module _ (env : Env) where
  insert_row_ok :
      (n : ℕ) (t : GroupMemberToken) (w : World Tables) {m : ℕ}
      → (Tokens.insert_row n t env w).0 ≡ ok m
      → (find (has_hash env t.token_hash) (Tokens.insert_row n t env w).1.tokens
          ≡ some (record t { id = n; created_at = w.now }))
        × ((Tokens.insert_row n t env w).1.members ≡ w.tables.members)
  unfolding Tokens.insert_row find
  insert_row_ok n t w {m} h =
      elim (Option-cases (find (has_hash env t.token_hash) w.tables.tokens)) [
        | inl free ↦
            let row = record t { id = n; created_at = w.now } in
            rw free (
              find-append (has_hash env t.token_hash) w.tables.tokens (row ∷ [])
                  ∙ rw free (rw (eq_refl (env.collation t.token_hash)) refl),
              refl,
            )
        | inr (old, taken) ↦ let refused : err duplicate_key ≡ ok m = rw taken at h in cc
      ]

  token_same : (w : World Tables) → (Tokens.new_access_token env w).1.tables ≡ w.tables
  unfolding Tokens.new_access_token
  token_same w = refl

  insert_token_ok :
      (t : GroupMemberToken) (w : World Tables) {m : ℕ}
      → (Tokens.insert_token t env w).0 ≡ ok m
      → (find (has_hash env t.token_hash) (Tokens.insert_token t env w).1.tables.tokens
          ≡ some (record t { id = w.seq; created_at = w.now }))
        × ((Tokens.insert_token t env w).1.tables.members ≡ w.tables.members)
  unfolding Tokens.insert_token
  insert_token_ok t w h =
      let v = record w { seq = w.seq + 1 } in
      let (inserted, left) = statement_ok (Tokens.insert_row w.seq t) env v h in
      let (found, members) = insert_row_ok w.seq t v inserted in (rw left found, rw left members)

  -- What a token leaves that was created.
  create_ok :
      (t : GroupMemberToken) (w : World Tables) {plain : String}
      → (Tokens.create t env w).0 ≡ ok plain
      → (n : ℕ) × (now : ℕ) × (find
            (has_hash env (hash_access_token env plain))
            (Tokens.create t env w).1.tables.tokens
          ≡ some (row_of n now (hash_access_token env plain) t))
        × ((Tokens.create t env w).1.tables.members ≡ w.tables.members)
  unfolding Tokens.create pure asks
  create_ok t w {plain} h =
      let hash : String → Sql Tables String =
        λ plain. asks (λ env w. hash_access_token env plain) in
      let rest : String → String → Sql Tables String = λ plain hash.
        Tokens.insert_token (record (normalize_token t) { token_hash = hash }) >> pure plain in
      let v = (Tokens.new_access_token env w).1 in
      let (given, drawn, next, same) =
        bind_ok Tokens.new_access_token (λ plain. hash plain >>= rest plain) env w h in
      let (hashed, told, then, same_hash) = bind_ok (hash given) (rest given) env v next in
      let row = record (normalize_token t) { token_hash = hashed } in
      let u = (hash given env v).1 in
      let (n, inserted, last, same_row) =
        bind_ok (Tokens.insert_token row) (λ _. pure given) env u then in
      let (found, members) = insert_token_ok row u inserted in
      let left : (Tokens.create t env w).1.tables ≡ (Tokens.insert_token row env u).1.tables =
        ap (λ r. r.1.tables) (same ∙ same_hash ∙ same_row) in
      let tokens = (Tokens.insert_token row env u).1.tables.tokens in
      let hashes : hashed ≡ hash_access_token env plain =
        sym (ok_same (hash_access_token env given) hashed told)
        ∙ ap (hash_access_token env) (ok_same given plain last) in
      (
        u.seq,
        u.now,
        ap (λ x. find (has_hash env (hash_access_token env plain)) x.tokens) left
            ∙ subst (λ x. find (has_hash env x) tokens ≡ some (row_of u.seq u.now x t)) hashes
                found,
        ap (λ x. x.members) left ∙ members,
      )

  present_ok :
      (o : Option GroupMember) (w : World Tables) {j : GroupMember}
      → (present o env w).0 ≡ ok j
      → (o ≡ some j) × ((present o env w).1 ≡ w)
  unfolding pure raise
  present_ok none w h = cc
  present_ok (some m) w {j} h = (ap some (ok_same m j h), refl)

  list_same : (g : String) (w : World Tables) → (Members.list g env w).1.tables ≡ w.tables
  unfolding Members.list
  list_same g w =
      query_same
        (λ env w.
          ok (Members.sort_members env (select (λ m. same_text env g m.group_id) w.tables.members)))
        env w

  get_ok :
      (g a i : String) (w : World Tables) {o : Option GroupMember}
      → (Members.get g a i env w).0 ≡ ok o
      → (find (is_actor env g (normalize_actor_type a) (trim_space i)) w.tables.members ≡ o)
        × ((Members.get g a i env w).1.tables ≡ w.tables)
  unfolding Members.get
  get_ok g a i w {o} h =
      let row : Env → World Tables → Result (Option GroupMember) = λ env w.
        ok (find (is_actor env g (normalize_actor_type a) (trim_space i)) w.tables.members) in
      (
        ok_same (find (is_actor env g (normalize_actor_type a) (trim_space i)) w.tables.members) o
            (query_ok row env w h),
        query_same row env w,
      )

  -- What the part of a join that follows the consumption leaves.
  admit_ok :
      (member : GroupMember) (t : GroupMemberToken) (w : World Tables) {joined : GroupMember}
      {members : List GroupMember} {plain : String}
      → (admit member t env w).0 ≡ ok (joined, members, plain)
      → (n : ℕ) × (now : ℕ) × (find
            (has_hash env (hash_access_token env plain))
            (admit member t env w).1.tables.tokens
          ≡ some (row_of n now (hash_access_token env plain) t))
        × (find
              (is_actor env member.group_id
                (normalize_actor_type (normalize_actor_type member.actor_type))
                (trim_space (trim_space member.actor_id)))
              (admit member t env w).1.tables.members
            ≡ some joined)
  unfolding admit pure
  admit_ok member t w {joined} {members} {plain} h =
      let m = Members.normalize_member member in
      let Answer = GroupMember × List GroupMember × String in
      let finish : GroupMember → List GroupMember → Sql Tables Answer =
        λ joined members. Tokens.create t >>= λ plain. pure (joined, members, plain) in
      let listed : GroupMember → Sql Tables Answer =
        λ joined. Members.list joined.group_id >>= finish joined in
      let read : Option GroupMember → Sql Tables Answer = λ stored. present stored >>= listed in
      let (one, inserted, next, same) =
        bind_ok (Members.insert_member m)
          (λ _. Members.get m.group_id m.actor_type m.actor_id >>= read) env w h in
      let v = (Members.insert_member m env w).1 in
      let (stored, got, next2, same2) =
        bind_ok (Members.get m.group_id m.actor_type m.actor_id) read env v next in
      let q = is_actor env m.group_id (normalize_actor_type m.actor_type) (trim_space m.actor_id) in
      let (seen, untouched) = get_ok m.group_id m.actor_type m.actor_id v got in
      let u = (Members.get m.group_id m.actor_type m.actor_id env v).1 in
      let (j, here, next3, same3) = bind_ok (present stored) listed env u next2 in
      let (is_there, unmoved) = present_ok stored u here in
      let u2 = (present stored env u).1 in
      let (ms, all_listed, next4, same4) =
        bind_ok (Members.list j.group_id) (finish j) env u2 next3 in
      let u3 = (Members.list j.group_id env u2).1 in
      let (p, created, last, same5) =
        bind_ok (Tokens.create t) (λ p. pure (j, ms, p)) env u3 next4 in
      let (n, now, found, kept) = create_ok t u3 created in
      let end = (Tokens.create t env u3).1.tables in
      let left : (admit member t env w).1.tables ≡ end =
        ap (λ r. r.1.tables) (same ∙ same2 ∙ same3 ∙ same4 ∙ same5) in
      let answer = ok_same (j, ms, p) (joined, members, plain) last in
      let earlier : u3.tables.members ≡ v.tables.members =
        ap (λ x. x.members) (list_same j.group_id u2 ∙ ap (λ x. x.tables) unmoved ∙ untouched) in
      (
        n,
        now,
        ap (λ x. find (has_hash env (hash_access_token env plain)) x.tokens) left
            ∙ subst
                (λ x.
                  find (has_hash env (hash_access_token env x)) end.tokens
                  ≡ some (row_of n now (hash_access_token env x) t))
                (ap (λ a. a.2) answer) found,
        ap (λ x. find q x.members) left
            ∙ ap (find q) (kept ∙ earlier)
            ∙ seen
            ∙ is_there
            ∙ ap some (ap (λ a. a.0) answer),
      )

row_usable :
    (t : GroupMemberToken) (n made now : ℕ) (hash : String)
    → t.expires_at ≡ none
    → t.revoked_at ≡ none
    → token_usable (row_of n made hash t) now ≡ true
unfolding token_usable
row_usable t n made now hash dateless live = rw live (rw dateless refl)

module _ (env : Env) (id : ℕ) (member : GroupMember) (t : GroupMemberToken) (w : World Tables) where
  abbrev pub after_join : Tables
  after_join = (consume_and_create_member_token id member t env w).1.tables

  -- Where joining by an invite succeeds for a token that is given for the same group and actor, that
  -- has no date and is not revoked, and the group's identifier has no space around it, a request that
  -- presents the returned token proves it, at any instant: it is stored for this group and actor, and
  -- the actor is a member.
  pub joined-IsProved :
      (headers : Headers) (now : ℕ) (joined : GroupMember) (members : List GroupMember)
      (plain : String)
      → (consume_and_create_member_token id member t env w).0 ≡ ok (joined, members, plain)
      → (t.group_id ≡ member.group_id)
        × (t.actor_type ≡ member.actor_type)
        × (t.actor_id ≡ member.actor_id)
      → trim_space t.group_id ≡ t.group_id
      → (t.expires_at ≡ none) × (t.revoked_at ≡ none)
      → presented_token headers ≡ plain
      → (u : GroupMemberToken) × (u.group_id ≡ t.group_id)
        × (u.actor_type ≡ normalize_actor_type t.actor_type)
        × (u.actor_id ≡ trim_space t.actor_id)
        × IsProved env now after_join headers u
  unfolding consume_and_create_member_token join_body
  joined-IsProved headers now joined members plain h (same_group, same_type, same_actor) trimmed
        (dateless, live) given =
      let (done_body, committed) = transaction_ok (join_body id member t) env w h in
      let (one, consumed, next, same) =
        bind_ok (consume id) (λ _. admit member t) env (begin env w) done_body in
      let v = (consume id env (begin env w)).1 in
      let (n, made, found, there) = admit_ok env member t v next in
      let left : after_join ≡ (admit member t env v).1.tables =
        committed ∙ ap (λ r. r.1.tables) same in
      let actor : String → String → String → GroupMember → Bool = λ g a i.
        is_actor env g (normalize_actor_type (normalize_actor_type a))
          (trim_space (trim_space i)) in
      let at : String → String → String → Option GroupMember =
        λ g a i. find (actor g a i) after_join.members in
      (
        row_of n made (hash_access_token env plain) t,
        trimmed,
        refl,
        refl,
        record {
          stored =
              ap (λ x. find (has_hash env (hash_access_token env x)) after_join.tokens) given
              ∙ ap (λ x. find (has_hash env (hash_access_token env plain)) x.tokens) left
              ∙ found;
          usable = row_usable t n made now (hash_access_token env plain) dateless live;
          member = joined;
          joined =
              ap (λ g. at g t.actor_type t.actor_id) (trimmed ∙ same_group)
              ∙ ap (λ a. at member.group_id a t.actor_id) same_type
              ∙ ap (λ i. at member.group_id member.actor_type i) same_actor
              ∙ ap (λ x. find (actor member.group_id member.actor_type member.actor_id) x.members)
                  left
              ∙ there;
        },
      )
