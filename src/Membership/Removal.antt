-- ===== src/Membership/Removal.antt =====
-- What the removal of a member leaves of its tokens.
use a2a_platform_go.Prelude.{
  All-unit, ℕ, String, ◌≡◌, refl, sym, ◌∙◌, subst, ap, true, false, Option, some, List, ◌==◌, arith,
  is_some, find, All, All-find, All-update, Bool-cases, inl, inr,
}
use a2a_platform_go.Prelude.Text.{trim_space}
use a2a_platform_go.Sql.{Env, World, Sql, Result, ok, pure, ◌>>=◌}
use a2a_platform_go.Sql.Invert.{bind_ok, exec_ok, query_ok, ok_same}
use a2a_platform_go.Sql.Keeps.{Keeps-bind, Keeps-query, Keeps-pure}
use a2a_platform_go.Group.{Group, GroupMember, GroupMemberToken, Tables, normalize_actor_type}
use a2a_platform_go.Group.Groups
use a2a_platform_go.Group.Members
use a2a_platform_go.Group.Tokens
use a2a_platform_go.Group.Tokens.{holds_for, token_usable}
use a2a_platform_go.Auth.{Headers}
use a2a_platform_go.Auth.Principal.{IsProved}
use a2a_platform_go.Membership.{
  Response, json_error, listed, authorized_to_delete_member, Target, target_type, target_id,
  list_members, removed, remove_from, delete_member,
}

-- A token of the actor is revoked.
abbrev pub IsRevokedFor : Env → String → String → String → GroupMemberToken → Type 0
IsRevokedFor env group_id actor_type actor_id t =
    holds_for env group_id actor_type actor_id t ≡ true → is_some t.revoked_at ≡ true

module _ (env : Env) where
  -- RevokeActor leaves no live token of the actor.
  revoke_actor_ok :
      (group_id actor_type actor_id : String) (w : World Tables) {u : Unit {0}}
      → (Tokens.revoke_actor group_id actor_type actor_id env w).0 ≡ ok u
      → All
          (IsRevokedFor env group_id (normalize_actor_type actor_type) (trim_space actor_id))
          (Tokens.revoke_actor group_id actor_type actor_id env w).1.tables.tokens
  unfolding Tokens.revoke_actor
  revoke_actor_ok group_id actor_type actor_id w done =
      let ty = normalize_actor_type actor_type in
      let id = trim_space actor_id in
      let R = IsRevokedFor env group_id ty id in
      let live = Tokens.is_live_for env group_id ty id in
      let left = exec_ok (Tokens.revoke_rows group_id actor_type actor_id) env w done in
      subst (λ (t : Tables). All R t.tokens) (sym left)
        (All-update (λ _. Unit {0}) R live (Tokens.revoked_now w.now) w.tables.tokens
          (λ t hit _ held. refl) (λ t missed _ held. ground arith) (All-unit w.tables.tokens))

  IsProved-live :
      {now : ℕ} {tables : Tables} {headers : Headers} (t : GroupMemberToken)
      (group_id actor_type actor_id : String)
      → All (IsRevokedFor env group_id actor_type actor_id) tables.tokens
      → IsProved env now tables headers t
      → holds_for env group_id actor_type actor_id t ≡ false
  unfolding token_usable
  IsProved-live {tables = tables} t g ty id revoked proved =
      let (dead, _) = All-find (IsRevokedFor env g ty id) _ tables.tokens t proved.stored revoked in
      let usable = proved.usable in
      elim (Bool-cases (holds_for env g ty id t)) [
        | inr other ↦ other
        | inl held ↦ let gone = dead held in ground arith
      ]

  list_members_same :
      (group_id : String) (w : World Tables) → (list_members group_id env w).1.tables ≡ w.tables
  unfolding Members.list
  list_members_same group_id w =
      (Keeps-bind {P = λ _ t. t ≡ w.tables} (Members.list group_id)
          (λ members. pure (listed members)) (Keeps-query _) (λ members. Keeps-pure _)).at
        env w refl

  removed_ok :
      (group_id actor_type actor_id : String) (w : World Tables) {members : List GroupMember}
      → (removed group_id actor_type actor_id env w).0 ≡ ok (listed members)
      → All
          (IsRevokedFor env group_id (normalize_actor_type actor_type) (trim_space actor_id))
          (removed group_id actor_type actor_id env w).1.tables.tokens
  removed_ok g ty id w h =
      let R = IsRevokedFor env g (normalize_actor_type ty) (trim_space id) in
      let list : Unit {0} → Sql Tables Response = λ _. list_members g in
      let revoke : Unit {0} → Sql Tables Response = λ _. Tokens.revoke_actor g ty id >>= list in
      let (_, taken, second, whole) = bind_ok (Members.remove g ty id) revoke env w h in
      let v = (Members.remove g ty id env w).1 in
      let (_, revoked, third, rest) = bind_ok (Tokens.revoke_actor g ty id) list env v second in
      let u = (Tokens.revoke_actor g ty id env v).1 in
      let same : (removed g ty id env w).1.tables ≡ u.tables =
        ap (λ p. p.1.tables) (whole ∙ rest) ∙ list_members_same g u in
      subst (λ (t : Tables). All R t.tokens) (sym same) (revoke_actor_ok g ty id v revoked)

  abbrev rows : String → Env → World Tables → Result (Option Group)
  rows group_id env w = ok (find (Groups.has_id env group_id) w.tables.groups)

  remove_from_ok :
      (headers : Headers) (target : Target) (group : Group) (w : World Tables)
      {members : List GroupMember}
      → (remove_from headers target (some group) env w).0 ≡ ok (listed members)
      → (authorized_to_delete_member headers group.id (target_type target) (target_id target)
          ≡ true)
        × All
            (IsRevokedFor env group.id
              (normalize_actor_type (target_type target))
              (trim_space (target_id target)))
            (remove_from headers target (some group) env w).1.tables.tokens
  unfolding pure
  remove_from_ok headers target group w h =
      let may =
        authorized_to_delete_member headers group.id (target_type target) (target_id target) in
      elim (Bool-cases (target_id target == "")) [
        | inl missing ↦
            let refusal : ok (json_error 400 "actor_id is required") ≡ ok (listed _) =
              rw missing at h in
            cc
        | inr named ↦ elim (Bool-cases may) [
          | inr forbidden ↦
              let refusal : ok (json_error 403 "forbidden") ≡ ok (listed _) =
                rw (named, forbidden) at h in
              cc
          | inl allowed ↦ (
            allowed,
            rw (named, allowed)
                (removed_ok group.id (target_type target) (target_id target) w
                  (rw (named, allowed) at h)),
          )
        ]
      ]

  module _ (headers : Headers) (group_id : String) (target : Target) (w : World Tables)
      (members : List GroupMember) (group : Group) (now : ℕ) (later : Headers)
      (t : GroupMemberToken) where
    -- A DELETE of a member that answers with the members was allowed to the caller that its headers
    -- name, and afterwards, at any instant, no token that a request proves is one of that actor in
    -- that group.
    pub delete_member-IsProved :
        (delete_member headers group_id target env w).0 ≡ ok (listed members)
        → find (Groups.has_id env group_id) w.tables.groups ≡ some group
        → IsProved env now (delete_member headers group_id target env w).1.tables later t
        → (authorized_to_delete_member headers group.id (target_type target) (target_id target)
            ≡ true)
          × (holds_for env group.id
                (normalize_actor_type (target_type target))
                (trim_space (target_id target))
                t
              ≡ false)
    unfolding delete_member Groups.get
    delete_member-IsProved h found proved =
        let get = Groups.get group_id in
        let (o, got, next, whole) = bind_ok get (remove_from headers target) env w h in
        let same : o ≡ some group =
          sym (ok_same _ o (query_ok (rows group_id) env w got)) ∙ found in
        let v = (get env w).1 in
        let (may, revoked) = remove_from_ok headers target group v (rw same at next) in
        let after =
          ap (λ p. p.1.tables) (whole ∙ ap (λ o. remove_from headers target o env v) same) in
        (
          may,
          IsProved-live t group.id (normalize_actor_type (target_type target))
              (trim_space (target_id target)) revoked
              (subst (λ (x : Tables). IsProved env now x later t) after proved),
        )
