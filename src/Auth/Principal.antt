-- ===== src/Auth/Principal.antt =====
-- authMiddleware: whom a request that is passed on comes from, as the handlers read it from the
-- headers, and what such a request may ask for.
use a2a_platform_go.Prelude.{
  ℕ, ◌≡◌, refl, sym, ◌∙◌, ap, true, Option, none, some, ◌==◌, find, Bool-cases, inl, inr,
}
use a2a_platform_go.Prelude.Text.{trim_space}
use a2a_platform_go.Sql.{Env, World, Sql, Result, ok, pure, asks, query, ◌>>=◌}
use a2a_platform_go.Sql.Invert.{bind_ok, ok_same, query_ok, query_same, query_now}
use a2a_platform_go.Group.{Tables, GroupMember, GroupMemberToken, normalize_actor_type}
use a2a_platform_go.Group.Members
use a2a_platform_go.Group.Members.{is_actor}
use a2a_platform_go.Group.Tokens.{has_hash, hash_access_token, token_usable}
use a2a_platform_go.Group.Tokens as Tokens
use a2a_platform_go.Auth.{Headers, presented_token, member_token_from_request, checked, if_present}
use a2a_platform_go.Auth.Guards.{get_ok}
use a2a_platform_go.Auth.Headers.{}

-- The token row that a request's headers prove: it is stored under the hash of the token that they
-- present, it is neither revoked nor past its date, and its actor is a member of its group.
pub record IsProved (env : Env) (now : ℕ) (tables : Tables) (headers : Headers)
    (t : GroupMemberToken) : Type 0 where
  pub stored :
      find (has_hash env (hash_access_token env (presented_token headers))) tables.tokens ≡ some t
  pub usable : token_usable t now ≡ true
  pub member : GroupMember
  pub joined :
      find
        (is_actor env t.group_id (normalize_actor_type t.actor_type) (trim_space t.actor_id))
        tables.members
      ≡ some member

module _ (env : Env) where
  if_present-some :
      (t u : GroupMemberToken) (o : Option GroupMember)
      → if_present u o ≡ some t
      → (u ≡ t) × ((member : GroupMember) × (o ≡ some member))
  if_present-some t u none h = cc
  if_present-some t u (some member) h = (cc, (member, refl))

  checked-some :
      (now : ℕ) (o : Option GroupMemberToken) (t : GroupMemberToken) (w : World Tables)
      → (checked now o env w).0 ≡ ok (some t)
      → (o ≡ some t)
        × (token_usable t now ≡ true)
        × ((member : GroupMember) × (find
                (is_actor env t.group_id
                  (normalize_actor_type t.actor_type)
                  (trim_space t.actor_id))
                w.tables.members
              ≡ some member))
  unfolding pure
  checked-some now none t w h = cc
  checked-some now (some u) t w h = elim (Bool-cases (token_usable u now)) [
    | inr invalid ↦ let nothing : ok none ≡ ok (some t) = rw invalid at h in cc
    | inl valid ↦
        let get = Members.get u.group_id u.actor_type u.actor_id in
        let (o, got, next, _) =
          bind_ok get (λ member. pure (if_present u member)) env w (rw valid at h) in
        let found = get_ok env u.group_id u.actor_type u.actor_id w got in
        let (same, (member, here)) = if_present-some t u o cc in
        (ap some same, rw same at valid, (member, rw same at (found ∙ here)))
  ]

  pub member_token_some :
      (headers : Headers) (w : World Tables) (t : GroupMemberToken)
      → (member_token_from_request headers env w).0 ≡ ok (some t)
      → IsProved env w.now w.tables headers t
  unfolding member_token_from_request pure Tokens.get_by_token asks
  member_token_some headers w t h = elim (Bool-cases (presented_token headers == "")) [
    | inl none_given ↦ let nothing : ok none ≡ ok (some t) = rw none_given at h in cc
    | inr given ↦
        let row : Env → World Tables → Result (Option GroupMemberToken) = λ env w.
          ok (
            find (has_hash env (hash_access_token env (presented_token headers)))
              w.tables.tokens) in
        let clock : Sql Tables ℕ = asks (λ env w. w.now) in
        let rest : Option GroupMemberToken → Sql Tables (Option GroupMemberToken) =
          λ o. clock >>= λ now. checked now o in
        let (o, found, next, _) = bind_ok (query row) rest env w (rw given at h) in
        let v = (query row env w).1 in
        let (now, told, last, _) = bind_ok clock (λ now. checked now o) env v next in
        let (some_t, valid, (member, joined)) = checked-some now o t v last in
        let stored : row env w ≡ ok o = query_ok row env w found in
        let instant : now ≡ w.now = sym (ok_same v.now now told) ∙ query_now row env w in
        record {
          stored = ok_same _ o stored ∙ some_t;
          usable = rw instant at valid;
          member = member;
          joined =
              ap
                (λ (u : Tables).
                  find
                    (is_actor env t.group_id (normalize_actor_type t.actor_type)
                      (trim_space t.actor_id))
                    u.members)
                (sym (query_same row env w))
              ∙ joined;
        }
  ]
