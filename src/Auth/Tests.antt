-- ===== src/Auth/Tests.antt =====
-- Requests to authMiddleware on concrete tables.
use a2a_platform_go.Prelude.{
  String, ◌≡◌, refl, true, some, [], ◌∷◌, find, delete, update, select, any,
}
use a2a_platform_go.Prelude.Text.{trim_space, has_suffix, has_prefix, split}
use a2a_platform_go.Sql.{ok}
use a2a_platform_go.Group.{GroupMember, GroupMemberToken, Tables, normalize_actor_type}
use a2a_platform_go.Group.Tests.{env, world, member, token, tables}
use a2a_platform_go.Auth.{
  Headers, presented_token, Request, forwarded, refused, json_error, auth_middleware,
  is_admin_request, agent_target,
}
use a2a_platform_go.Auth.Principal.{IsProved}
use a2a_platform_go.Auth.Joined.{after_join, joined-IsProved}
use a2a_platform_go.Group.Invites.{consume_and_create_member_token}
use a2a_platform_go.Group.Members.{upsert_row}
use a2a_platform_go.Auth.Guards.{IsAdmitted}
use a2a_platform_go.Auth.Paths.{scoped_group_id, path_tail}
use a2a_platform_go.Auth.Asked.{invite, part}
use a2a_platform_go.Auth.Access.{
  auth_middleware-Origin, Origin, admin_only, own_group, agent_in_group,
}

-- Two agents, of which one holds the token "secret".
abbrev joined : Tables
joined = record tables {
  members = member "a" ∷ member "b" ∷ [];
  tokens = record (token "a") { token_hash = "#secret" } ∷ [];
}

-- A client that spoofs the administrator's header.
abbrev request : String → String → Request
request method path = record {
  method = method;
  path = path;
  headers = ("X-A2A-Principal", "admin") ∷ ("Authorization", "Bearer secret") ∷ [];
}

abbrev as_member : Request → Request
as_member r = record r {
  headers =
      ("X-A2A-Actor-ID", "a")
      ∷ ("X-A2A-Actor-Type", "agent")
      ∷ ("X-A2A-Group-ID", "g")
      ∷ ("X-A2A-Principal", "member")
      ∷ ("Authorization", "Bearer secret")
      ∷ [];
}

abbrev admin_request : Request
admin_request = record {
  method = "GET";
  path = "/api/stats";
  headers = ("X-Admin-Token", "root") ∷ [];
}

abbrev as_admin : Request
as_admin = record admin_request {
  headers = ("X-A2A-Principal", "admin") ∷ ("X-Admin-Token", "root") ∷ [];
}

get_events_forwarded :
    (auth_middleware "root" (request "GET" "/api/groups/g/events") env (world joined)).0
    ≡ ok (forwarded (as_member (request "GET" "/api/groups/g/events")))
unfolding auth_middleware find delete trim_space normalize_actor_type
get_events_forwarded = refl

-- Another group is forbidden.
other_group_refused :
    (auth_middleware "root" (request "GET" "/api/groups/h/events") env (world joined)).0
    ≡ ok (refused (json_error 403 "forbidden"))
unfolding auth_middleware find delete trim_space normalize_actor_type
other_group_refused = refl

agent_forwarded :
    (auth_middleware "root" (request "POST" "/agent/b") env (world joined)).0
    ≡ ok (forwarded (as_member (request "POST" "/agent/b")))
unfolding auth_middleware find delete trim_space normalize_actor_type
agent_forwarded = refl

stats_forwarded :
    (auth_middleware "root" admin_request env (world joined)).0 ≡ ok (forwarded as_admin)
unfolding auth_middleware find delete trim_space normalize_actor_type
stats_forwarded = refl

auth_middleware-Origin_example :
    ((request "GET" "/api/groups/g/events").method ≡ (request "GET" "/api/groups/g/events").method)
    × ((request "GET" "/api/groups/g/events").path ≡ (request "GET" "/api/groups/g/events").path)
    × Origin env "root"
        (world joined)
        (request "GET" "/api/groups/g/events")
        (as_member (request "GET" "/api/groups/g/events"))
auth_middleware-Origin_example =
    auth_middleware-Origin env "root" (world joined) (request "GET" "/api/groups/g/events")
      (as_member (request "GET" "/api/groups/g/events")) get_events_forwarded

own_group_example :
    (t : GroupMemberToken) × IsProved env 5 joined (request "GET" "/api/groups/g/events").headers t
    × (t.group_id ≡ "g")
unfolding is_admin_request path_tail split any find trim_space has_prefix
own_group_example =
    own_group env "root" (world joined) (request "GET" "/api/groups/g/events")
      (as_member (request "GET" "/api/groups/g/events")) "g" refl refl refl
      (part "events" [] refl refl) refl get_events_forwarded

agent_in_group_example :
    (t : GroupMemberToken) × IsProved env 5 joined (request "POST" "/agent/b").headers t
    × IsAdmitted env joined.members (some t) (agent_target "/agent/b")
unfolding is_admin_request scoped_group_id find trim_space
agent_in_group_example =
    agent_in_group env "root" (world joined) (request "POST" "/agent/b")
      (as_member (request "POST" "/agent/b")) refl refl refl agent_forwarded

abbrev invite_request : Request
invite_request = record admin_request { method = "POST"; path = "/api/groups/g/invites" }

invites_forwarded :
    (auth_middleware "root" invite_request env (world joined)).0
    ≡ ok (forwarded (record as_admin { method = "POST"; path = "/api/groups/g/invites" }))
unfolding auth_middleware is_admin_request find delete
invites_forwarded = refl

-- With a slash at its end the path passes without a token.
slash_forwarded :
    (auth_middleware "root"
      (record { method = "POST"; path = "/api/groups/g/invites/"; headers = [] })
      env
      (world joined)).0
    ≡ ok (forwarded (record { method = "POST"; path = "/api/groups/g/invites/"; headers = [] }))
unfolding auth_middleware is_admin_request find delete
slash_forwarded = refl

admin_only_example : is_admin_request "root" invite_request.headers ≡ true
unfolding has_suffix has_prefix
admin_only_example =
    admin_only env "root" (world joined) invite_request
      (record as_admin { method = "POST"; path = "/api/groups/g/invites" }) refl
      (invite refl refl refl) invites_forwarded

abbrev newcomer : GroupMember
newcomer = record (member "a") { id = 1; role = "member"; joined_at = 5 }

abbrev joined_headers : Headers
joined_headers = ("X-Group-Member-Token", "t11") ∷ []

joined-IsProved_example :
    (u : GroupMemberToken) × (u.group_id ≡ (token "a").group_id)
    × (u.actor_type ≡ normalize_actor_type (token "a").actor_type)
    × (u.actor_id ≡ trim_space (token "a").actor_id)
    × IsProved env 9 (after_join env 7 (member "a") (token "a") (world tables)) joined_headers u
unfolding consume_and_create_member_token find update upsert_row normalize_actor_type trim_space
    presented_token select
joined-IsProved_example =
    joined-IsProved env 7 (member "a") (token "a") (world tables) joined_headers 9 newcomer
      (newcomer ∷ []) "t11" refl (refl, refl, refl) refl (refl, refl) refl
