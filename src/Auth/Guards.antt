-- ===== src/Auth/Guards.antt =====
-- What authMiddleware asks before it passes a request on.
use a2a_platform_go.Prelude.{
  String, ◌≡◌, refl, ◌∙◌, subst, Bool, true, false, Option, none, some, List, ◌==◌, find,
  Bool-cases, inl, inr,
}
use a2a_platform_go.Prelude.Text.{has_prefix, trim_space}
use a2a_platform_go.Sql.{Env, World, Sql, Result, ok, err, pure, try, ◌>>=◌}
use a2a_platform_go.Sql.Invert.{bind_ok, query_ok, query_same}
use a2a_platform_go.Group.{Tables, GroupMember, GroupMemberToken, normalize_actor_type}
use a2a_platform_go.Group.Members
use a2a_platform_go.Group.Members.{is_actor}
use a2a_platform_go.Auth.Paths.{requires_admin, scoped_group_id}
use a2a_platform_go.Auth.{
  Request, Answer, Refusal, refused, forwarded, json_error, check_target, check_scope, check_if,
  in_group, unless, guard_request, card_target, agent_target,
}

-- The token is of a group that has the agent `target` as a member.
pub record IsAdmitted (env : Env) (members : List GroupMember) (token : Option GroupMemberToken)
    (target : String) : Type 0 where
  pub holder : GroupMemberToken
  pub presented : token ≡ some holder
  pub named : target == "" ≡ false
  pub member : GroupMember
  pub joined : find (is_actor env holder.group_id "agent" (trim_space target)) members ≡ some member

module _ (env : Env) where
  pub try_ok :
      {T A : Type 0} (m : Sql T A) (w : World T) {r : Result A}
      → (try m env w).0 ≡ ok r
      → ((m env w).0 ≡ r) × ((try m env w).1 ≡ (m env w).1)
  unfolding try
  try_ok m w h = (cc, refl)

  in_group-none :
      (r : Result (Option GroupMember))
      → in_group r ≡ none
      → (member : GroupMember) × (r ≡ ok (some member))
  in_group-none (err e) h = cc
  in_group-none (ok none) h = cc
  in_group-none (ok (some member)) h = (member, refl)

  -- The SELECT of GroupMemberStore.Get.
  abbrev rows : String → String → String → Env → World Tables → Result (Option GroupMember)
  rows g a i env w =
      ok (find (is_actor env g (normalize_actor_type a) (trim_space i)) w.tables.members)

  pub get_ok :
      (g a i : String) (w : World Tables) {o : Option GroupMember}
      → (Members.get g a i env w).0 ≡ ok o
      → find (is_actor env g (normalize_actor_type a) (trim_space i)) w.tables.members ≡ o
  unfolding Members.get
  get_ok g a i w {o} h = let e : rows g a i env w ≡ ok o = query_ok (rows g a i) env w h in cc

  get_same : (g a i : String) (w : World Tables) → (Members.get g a i env w).1.tables ≡ w.tables
  unfolding Members.get
  get_same g a i w = query_same (rows g a i) env w

  -- An agent is asked for by its own type.
  agent_type : normalize_actor_type "agent" ≡ "agent"
  unfolding normalize_actor_type trim_space
  agent_type = refl

  target_found :
      (t : GroupMemberToken) (target : String) (w : World Tables)
      → target == "" ≡ false
      → (check_target (some t) target env w).0 ≡ ok none
      → IsAdmitted env w.tables.members (some t) target
  unfolding check_target pure
  target_found t target w named h =
      let get = Members.get t.group_id "agent" target in
      let (r, tried, next, _) = bind_ok (try get) (λ r. pure (in_group r)) env w (rw named at h) in
      let (got, _) = try_ok get w tried in
      let (member, found) = in_group-none r cc in
      record {
        holder = t;
        presented = refl;
        named = named;
        member = member;
        joined = rw agent_type at (get_ok t.group_id "agent" target w (got ∙ found));
      }

  check_target-none :
      (token : Option GroupMemberToken) (target : String) (w : World Tables)
      → (check_target token target env w).0 ≡ ok none
      → IsAdmitted env w.tables.members token target
  unfolding check_target pure
  check_target-none none target w h = cc
  check_target-none (some t) target w h = elim (Bool-cases (target == "")) [
    | inr named ↦ target_found t target w named h
    | inl empty ↦
        let refusal : ok (some (json_error 400 "missing agent name")) ≡ ok none = rw empty at h in
        cc
  ]

  check_target_same :
      (token : Option GroupMemberToken) (target : String) (w : World Tables)
      → (check_target token target env w).1.tables ≡ w.tables
  unfolding check_target pure
  check_target_same none target w = refl
  check_target_same (some t) target w = elim (Bool-cases (target == "")) [
    | inl empty ↦ rw empty
    | inr named ↦ rw named (get_same t.group_id "agent" target w)
  ]

  check_if-none :
      (applies : Bool) (token : Option GroupMemberToken) (target : String) (w : World Tables)
      → (check_if applies (check_target token target) env w).0 ≡ ok none
      → (applies ≡ true → IsAdmitted env w.tables.members token target)
        × ((check_if applies (check_target token target) env w).1.tables ≡ w.tables)
  unfolding pure
  check_if-none false token target w h = (λ e. cc, refl)
  check_if-none true token target w h =
      (λ e. check_target-none token target w h, check_target_same token target w)

  unless_forwarded :
      (o : Option Refusal) (rest : Sql Tables Answer) (w : World Tables) {r : Request}
      → (unless o rest env w).0 ≡ ok (forwarded r)
      → (o ≡ none) × ((rest env w).0 ≡ ok (forwarded r))
  unfolding pure
  unless_forwarded none rest w h = (refl, h)
  unless_forwarded (some refusal) rest w h = cc

-- What a request has passed when guard_request forwards it.
pub record HasPassed (env : Env) (members : List GroupMember) (token : Option GroupMemberToken)
    (r : Request) : Type 0 where
  pub not_admin : requires_admin r.path r.method ≡ false
  pub card :
      has_prefix r.path "/.well-known/agent-card/" ≡ true
      → IsAdmitted env members token (card_target r.path)
  pub scope : check_scope token (scoped_group_id r.path r.method) ≡ none
  pub agent :
      has_prefix r.path "/agent/" ≡ true → IsAdmitted env members token (agent_target r.path)

module _ (env : Env) (token : Option GroupMemberToken) (r : Request) where
  abbrev check_card : Sql Tables (Option Refusal)
  check_card =
      check_if (has_prefix r.path "/.well-known/agent-card/")
        (check_target token (card_target r.path))

  abbrev check_agent : Sql Tables (Option Refusal)
  check_agent = check_if (has_prefix r.path "/agent/") (check_target token (agent_target r.path))

  abbrev after_agent : Option Refusal → Sql Tables Answer
  after_agent agent = unless agent (pure (forwarded r))

  abbrev after_card : Option Refusal → Sql Tables Answer
  after_card card =
      unless card
        (unless (check_scope token (scoped_group_id r.path r.method)) (check_agent >>= after_agent))

  checks_forwarded :
      (w : World Tables) {s : Request}
      → requires_admin r.path r.method ≡ false
      → ((check_card >>= after_card) env w).0 ≡ ok (forwarded s)
      → (s ≡ r) × HasPassed env w.tables.members token r
  unfolding pure
  checks_forwarded w free h =
      let (c, card, next, _) = bind_ok check_card after_card env w h in
      let v = (check_card env w).1 in
      let (c_none, inner) = unless_forwarded env c _ v next in
      let (scope, inner') = unless_forwarded env _ _ v inner in
      let (a, agent, last, _) = bind_ok check_agent after_agent env v inner' in
      let (a_none, end) = unless_forwarded env a _ (check_agent env v).1 last in
      let (passed_card, same) = check_if-none env _ token _ w (rw c_none at card) in
      let (passed_agent, _) = check_if-none env _ token _ v (rw a_none at agent) in
      (
        cc,
        record {
          not_admin = free;
          card = passed_card;
          scope = scope;
          agent = λ e.
              subst (λ (t : Tables). IsAdmitted env t.members token (agent_target r.path)) same
                (passed_agent e);
        },
      )

  pub guard_request_forwarded :
      (w : World Tables) {s : Request}
      → (guard_request token r env w).0 ≡ ok (forwarded s)
      → (s ≡ r) × HasPassed env w.tables.members token r
  unfolding guard_request pure
  guard_request_forwarded w h = elim (Bool-cases (requires_admin r.path r.method)) [
    | inr free ↦ checks_forwarded w free (rw free at h)
    | inl admin ↦
        let refusal : (pure (refused (json_error 401 "unauthorized")) env w).0 ≡ ok (forwarded _) =
          rw admin at h in
        cc
  ]
