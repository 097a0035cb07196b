-- ===== src/Auth/Access.antt =====
-- authMiddleware as a whole: whom a request that is passed on comes from, as the handlers read it
-- from the headers, and what such a request may ask for.
use a2a_platform_go.Prelude.{
  String, ◌≡◌, refl, ◌∙◌, ap, true, false, Option, none, some, ◌==◌, arith, eq_iff,
}
use a2a_platform_go.Prelude.Text.{has_prefix}
use a2a_platform_go.Sql.{Env, World, ok}
use a2a_platform_go.Group.{Tables, GroupMemberToken}
use a2a_platform_go.Auth.{
  Headers, Request, forwarded, is_open, is_admin_request, member_token_from_request, marked,
  clear_auth_principal_headers, auth_middleware, check_scope, agent_target,
}
use a2a_platform_go.Auth.Guards.{IsAdmitted}
use a2a_platform_go.Sql.Keeps.{}
use a2a_platform_go.Auth.Paths.{requires_admin, scoped_group_id}
use a2a_platform_go.Auth.Asked.{
  IsForAdmin, IsForAdmin-requires, is_in_groups, IsInGroup, IsInGroup-scoped,
}
use a2a_platform_go.Auth.Passing.{Passing, open_path, as_admin, guarded, presented-clear, passing}
use a2a_platform_go.Auth.Principal.{IsProved, member_token_some}
use a2a_platform_go.Auth.Headers.{principal, principal-clear, principal-admin, principal-mark}

abbrev nobody : String × String × String × String
nobody = ("", "", "", "")

-- What a request that is passed on comes from.
pub data Origin (env : Env) (admin_token : String) (w : World Tables) (r s : Request) : Type 0 where
  anonymous : principal s.headers ≡ nobody → Origin env admin_token w r s
  administrator :
      is_admin_request admin_token r.headers ≡ true
      → principal s.headers ≡ ("admin", "", "", "")
      → Origin env admin_token w r s
  group_member :
      (t : GroupMemberToken)
      → IsProved env w.now w.tables r.headers t
      → principal s.headers ≡ ("member", t.group_id, t.actor_type, t.actor_id)
      → Origin env admin_token w r s

module _ (env : Env) (admin_token : String) (w : World Tables) (r s : Request) where
  abbrev headers : Headers
  headers = clear_auth_principal_headers r.headers

  IsProved-clear :
      (t : GroupMemberToken)
      → IsProved env w.now w.tables headers t
      → IsProved env w.now w.tables r.headers t
  IsProved-clear t p = record {
    stored = rw (presented-clear r.headers) at p.stored;
    usable = p.usable;
    member = p.member;
    joined = p.joined;
  }

  abbrev ProofOf : (t : GroupMemberToken) → Type 0
  ProofOf t = IsProved env w.now w.tables r.headers t

  proved :
      (token : Option GroupMemberToken) (t : GroupMemberToken)
      → (member_token_from_request headers env w).0 ≡ ok token
      → token ≡ some t
      → ProofOf t
  proved token t got e = IsProved-clear t (member_token_some env headers w t (rw e at got))

  marked-Origin :
      (token : Option GroupMemberToken)
      → (member_token_from_request headers env w).0 ≡ ok token
      → principal s.headers ≡ principal (marked token headers)
      → Origin env admin_token w r s
  marked-Origin none got read = anonymous (read ∙ principal-clear r.headers)
  marked-Origin (some t) got read =
      group_member t (proved (some t) t got refl) (read ∙ principal-mark t headers)

  passing-Origin :
      Passing env admin_token w r s
      → (s.method ≡ r.method) × (s.path ≡ r.path) × Origin env admin_token w r s
  passing-Origin (open_path _ e) = (
    ap (λ (x : Request). x.method) e,
    ap (λ (x : Request). x.path) e,
    anonymous (ap (λ (x : Request). principal x.headers) e ∙ principal-clear r.headers),
  )
  passing-Origin (as_admin admin e) = (
    ap (λ (x : Request). x.method) e,
    ap (λ (x : Request). x.path) e,
    administrator admin (
        ap (λ (x : Request). principal x.headers) e
        ∙ principal-admin headers (principal-clear r.headers)),
  )
  passing-Origin (guarded token got e passed) = (
    ap (λ (x : Request). x.method) e,
    ap (λ (x : Request). x.path) e,
    marked-Origin token got (ap (λ (x : Request). principal x.headers) e),
  )

  -- A request that authMiddleware passes on has the method and the path with which it came, and
  -- what its principal headers then say is one of three: nothing; "admin", and the request carried
  -- the configured token; or a member, its group and its actor, read from a stored, usable token
  -- under the hash of what the request presents, whose actor is in the group.
  pub auth_middleware-Origin :
      (auth_middleware admin_token r env w).0 ≡ ok (forwarded s)
      → (s.method ≡ r.method) × (s.path ≡ r.path) × Origin env admin_token w r s
  auth_middleware-Origin h = passing-Origin (passing env admin_token w r s h)

  passing_admin :
      Passing env admin_token w r s
      → is_open r ≡ false
      → requires_admin r.path r.method ≡ true
      → is_admin_request admin_token r.headers ≡ true
  passing_admin (open_path free e) closed need = cc
  passing_admin (as_admin admin e) closed need = admin
  passing_admin (guarded token got e passed) closed need =
      let free = passed.not_admin in
      let path = ap (λ (x : Request). x.path) e in
      let method = ap (λ (x : Request). x.method) e in cc

  -- Where a request is no OPTIONS and asks for one of the following, authMiddleware passes it on only
  -- if it carries the administrator's token: a path that begins with /api/agents,
  -- /api/builtin-agents, /api/tasks, /api/traces, /api/contexts or /api/subagents; /api/stats,
  -- /api/events or /api/humans, or a path under /api/humans/ but register, login and me; POST
  -- /api/groups; and under /api/groups/ any PUT, DELETE of a group, POST of a path that ends in
  -- /members, and but for DELETE a path that ends in /invites or /join, without a slash behind it.
  pub admin_only :
      is_open r ≡ false
      → IsForAdmin r
      → (auth_middleware admin_token r env w).0 ≡ ok (forwarded s)
      → is_admin_request admin_token r.headers ≡ true
  admin_only closed need h =
      passing_admin (passing env admin_token w r s h) closed (IsForAdmin-requires r need)

  scope_none :
      (token : Option GroupMemberToken) (g : String)
      → g == "" ≡ false
      → check_scope token (some g) ≡ none
      → (t : GroupMemberToken) × (token ≡ some t) × (t.group_id ≡ g)
  unfolding check_scope
  scope_none none g named h = cc
  scope_none (some t) g named h = (t, refl, (eq_iff t.group_id g).0 (ground arith))

  passing_scope :
      (g : String)
      → Passing env admin_token w r s
      → is_open r ≡ false
      → is_admin_request admin_token r.headers ≡ false
      → scoped_group_id r.path r.method ≡ some g
      → g == "" ≡ false
      → (t : GroupMemberToken) × ProofOf t × (t.group_id ≡ g)
  passing_scope g (open_path free e) closed other scoped named = cc
  passing_scope g (as_admin admin e) closed other scoped named = cc
  passing_scope g (guarded token got e passed) closed other scoped named =
      let path = ap (λ (x : Request). x.path) e in
      let method = ap (λ (x : Request). x.method) e in
      let scope : check_scope token (some g) ≡ none = rw (path, method, scoped) at passed.scope in
      let (t, held, same) = scope_none token g named scope in (t, proved token t got held, same)

  -- Where a request is no OPTIONS, does not carry the administrator's token and asks, behind
  -- /api/groups/, for a group `g` itself by GET, or by any method for the members, the events, the
  -- artifacts or the orchestration of `g` or a path below these, authMiddleware passes it on only if
  -- it proves a membership of `g` itself.
  pub own_group :
      (g : String)
      → is_open r ≡ false
      → is_admin_request admin_token r.headers ≡ false
      → is_in_groups r ≡ true
      → IsInGroup r g
      → g == "" ≡ false
      → (auth_middleware admin_token r env w).0 ≡ ok (forwarded s)
      → (t : GroupMemberToken) × ProofOf t × (t.group_id ≡ g)
  own_group g closed other inside asked named h =
      passing_scope g (passing env admin_token w r s h) closed other
        (IsInGroup-scoped r g inside named asked) named

  passing_agent :
      Passing env admin_token w r s
      → is_open r ≡ false
      → is_admin_request admin_token r.headers ≡ false
      → has_prefix r.path "/agent/" ≡ true
      → (t : GroupMemberToken) × ProofOf t
        × IsAdmitted env w.tables.members (some t) (agent_target r.path)
  passing_agent (open_path free e) closed other under = cc
  passing_agent (as_admin admin e) closed other under = cc
  passing_agent (guarded token got e passed) closed other under =
      let path = ap (λ (x : Request). x.path) e in
      let admitted : IsAdmitted env w.tables.members token (agent_target r.path) =
        rw path at (passed.agent (ap (λ p. has_prefix p "/agent/") path ∙ under)) in
      (
        admitted.holder,
        proved token admitted.holder got admitted.presented,
        rw admitted.presented at admitted,
      )

  -- Where a request is for an agent, under /agent/, its method is not OPTIONS, and it does not
  -- carry the administrator's token, authMiddleware passes it on only if it proves a membership of
  -- a group of which that agent is a member too.
  pub agent_in_group :
      is_open r ≡ false
      → is_admin_request admin_token r.headers ≡ false
      → has_prefix r.path "/agent/" ≡ true
      → (auth_middleware admin_token r env w).0 ≡ ok (forwarded s)
      → (t : GroupMemberToken) × ProofOf t
        × IsAdmitted env w.tables.members (some t) (agent_target r.path)
  agent_in_group closed other under h =
      passing_agent (passing env admin_token w r s h) closed other under
