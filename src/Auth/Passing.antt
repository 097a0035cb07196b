-- ===== src/Auth/Passing.antt =====
-- authMiddleware: the ways in which it passes a request on.
use a2a_platform_go.Prelude.{
  ℕ, String, ◌≡◌, refl, sym, ◌∙◌, subst, ap, true, Option, none, some, ◌==◌, Bool-cases, inl, inr,
}
use a2a_platform_go.Sql.{Env, World, Sql, Result, ok, err, pure, asks, try, ◌>>=◌}
use a2a_platform_go.Sql.Invert.{bind_ok}
use a2a_platform_go.Group.{Tables, GroupMember, GroupMemberToken}
use a2a_platform_go.Group.Members
use a2a_platform_go.Group.Members.{is_actor}
use a2a_platform_go.Group.Tokens.{has_hash, hash_access_token, token_usable}
use a2a_platform_go.Group.Tokens as Tokens
use a2a_platform_go.Auth.{
  Headers, Request, forwarded, is_open, is_admin_request, presented_token,
  member_token_from_request, checked, if_present, member_request, marked,
  clear_auth_principal_headers, auth_middleware, set_header, auth_principal_header,
  token_from_request, bearer_token,
}
use a2a_platform_go.Auth.Guards.{HasPassed, guard_request_forwarded, try_ok}
use a2a_platform_go.Sql.Keeps.{Keeps, Keeps-bind, Keeps-pure, Keeps-query, Keeps-asks, Keeps-if}
use a2a_platform_go.Auth.Headers.{get-clear}

-- Clearing the principal's headers takes no token away.
pub presented-clear :
    (h : Headers) → presented_token (clear_auth_principal_headers h) ≡ presented_token h
unfolding presented_token bearer_token
presented-clear h =
    rw
      (
        get-clear "X-Group-Member-Token" h refl refl refl refl,
        get-clear "Authorization" h refl refl refl refl,
      )
      refl

admin-clear :
    (admin_token : String) (h : Headers)
    → is_admin_request admin_token (clear_auth_principal_headers h) ≡ is_admin_request admin_token h
unfolding is_admin_request token_from_request bearer_token
admin-clear admin_token h =
    rw
      (
        get-clear "X-Admin-Token" h refl refl refl refl,
        get-clear "Authorization" h refl refl refl refl,
      )
      refl

checked-Keeps :
    {P : Env → Tables → Type 0} (now : ℕ) (o : Option GroupMemberToken) → Keeps P (checked now o)
unfolding Members.get
checked-Keeps now none = Keeps-pure none
checked-Keeps now (some t) =
    let get = Members.get t.group_id t.actor_type t.actor_id in
    let found : Option GroupMember → Sql Tables (Option GroupMemberToken) =
      λ member. pure (if_present t member) in
    Keeps-if (token_usable t now) (get >>= found) (pure none)
      (λ _. Keeps-bind get found (Keeps-query _) (λ member. Keeps-pure _)) (λ _. Keeps-pure none)

member_token-Keeps :
    {P : Env → Tables → Type 0} (headers : Headers) → Keeps P (member_token_from_request headers)
unfolding member_token_from_request Tokens.get_by_token Members.get
member_token-Keeps headers =
    let clock : Sql Tables ℕ = asks (λ env w. w.now) in
    let row = Tokens.get_by_token (presented_token headers) in
    let rest : Option GroupMemberToken → Sql Tables (Option GroupMemberToken) =
      λ o. clock >>= λ now. checked now o in
    Keeps-if (presented_token headers == "") (pure none) (row >>= rest) (λ _. Keeps-pure none)
      (λ _.
        Keeps-bind row rest (Keeps-query _) (λ o.
          Keeps-bind clock (λ now. checked now o) (Keeps-asks _) (λ now. checked-Keeps now o)))

-- A request that is passed on without a question, as the administrator's, or through guard_request.
pub data Passing (env : Env) (admin_token : String) (w : World Tables) (r s : Request)
    : Type 0 where
  open_path :
      is_open r ≡ true
      → s ≡ record r { headers = clear_auth_principal_headers r.headers }
      → Passing env admin_token w r s
  as_admin :
      is_admin_request admin_token r.headers ≡ true
      → s ≡ record r {
        headers = set_header auth_principal_header "admin" (clear_auth_principal_headers r.headers);
      }
      → Passing env admin_token w r s
  guarded :
      (token : Option GroupMemberToken)
      → (member_token_from_request (clear_auth_principal_headers r.headers) env w).0 ≡ ok token
      → s ≡ record r { headers = marked token (clear_auth_principal_headers r.headers) }
      → HasPassed env w.tables.members token s
      → Passing env admin_token w r s

forwarded_same :
    (r s : Request) (env : Env) (w : World Tables)
    → (pure {T = Tables} (forwarded r) env w).0 ≡ ok (forwarded s)
    → s ≡ r
unfolding pure
forwarded_same r s env w h = cc

module _ (env : Env) (admin_token : String) (w : World Tables) (r s : Request) where
  abbrev headers : Headers
  headers = clear_auth_principal_headers r.headers

  abbrev cleared : Request
  cleared = record r { headers = headers }

  member_forwarded :
      (v : World Tables) (o : Result (Option GroupMemberToken))
      → (member_token_from_request headers env w).0 ≡ o
      → v.tables ≡ w.tables
      → (member_request cleared o env v).0 ≡ ok (forwarded s)
      → Passing env admin_token w r s
  unfolding pure
  member_forwarded v (err e) got same h = cc
  member_forwarded v (ok token) got same h =
      let marked_r = record r { headers = marked token headers } in
      let (exact, passed) = guard_request_forwarded env token marked_r v h in
      guarded token got exact (
        subst (HasPassed env w.tables.members token) (sym exact)
          (subst (λ (t : Tables). HasPassed env t.members token marked_r) same passed))

  pub passing :
      (auth_middleware admin_token r env w).0 ≡ ok (forwarded s) → Passing env admin_token w r s
  unfolding auth_middleware
  passing h = elim (Bool-cases (is_open r)) [
    | inl free ↦ open_path free (forwarded_same _ s env w (rw free at h))
    | inr closed ↦ elim (Bool-cases (is_admin_request admin_token headers)) [
      | inl admin ↦
          as_admin (sym (admin-clear admin_token r.headers) ∙ admin)
            (forwarded_same _ s env w (rw (closed, admin) at h))
      | inr other ↦
          let find_token = member_token_from_request headers in
          let (o, tried, next, _) =
            bind_ok (try find_token) (member_request cleared) env w (rw (closed, other) at h) in
          let (got, after) = try_ok env find_token w tried in
          let same =
            ap (λ (x : World Tables). x.tables) after
            ∙ (member_token-Keeps {P = λ _ t. t ≡ w.tables} headers).at env w refl in
          member_forwarded (try find_token env w).1 o got same next
    ]
  ]
