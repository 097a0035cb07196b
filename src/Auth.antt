-- ===== src/Auth.antt =====
-- cmd/server/main.go, authMiddleware: who a request comes from, and whether it is passed on. The
-- stores are those of internal/svc, which main always sets up.
pub mod Paths
pub mod Guards
pub mod Headers
pub mod Principal
pub mod Passing
pub mod Asked
pub mod Access
pub mod Joined
pub mod Cors
mod Tests
use a2a_platform_go.Prelude.{
  ℕ, String, Bool, true, false, ◌&&◌, ◌||◌, not, Option, none, some, List, [], ◌∷◌, ◌==◌,
  if◌then◌else◌, is_some, find, delete,
}
use a2a_platform_go.Prelude.Text.{trim_space, cut_prefix, has_prefix}
use a2a_platform_go.Sql.{
  Env, World, Sql, Result, ok, err, Error, pure, asks, query, try, ◌>>=◌, ◌>>◌,
}
use a2a_platform_go.Group.{Tables, GroupMember, GroupMemberToken}
use a2a_platform_go.Group.Members
use a2a_platform_go.Group.Tokens
use a2a_platform_go.Auth.Paths.{
  path_tail, agent_card_subresource_name, requires_admin, scoped_group_id,
}

-- http.Header: one row for each value, by a header's canonical name.
abbrev pub Headers : Type 0
Headers = List (String × String)

pub record Request : Type 0 where
  pub method : String
  pub path : String
  pub headers : Headers

abbrev pub is_named : String → String × String → Bool
is_named name header = header.0 == name

abbrev pub value_or_empty : Option (String × String) → String
value_or_empty none = ""
value_or_empty (some header) = header.1

-- Header.Get, Header.Del and Header.Set
unfoldable pub get_header : String → Headers → String
get_header name headers = value_or_empty (find (is_named name) headers)

unfoldable pub set_header : String → String → Headers → Headers
set_header name value headers = (name, value) ∷ delete (is_named name) headers

abbrev pub auth_principal_header : String
auth_principal_header = "X-A2A-Principal"

abbrev pub auth_group_id_header : String
auth_group_id_header = "X-A2A-Group-ID"

abbrev pub auth_actor_type_header : String
auth_actor_type_header = "X-A2A-Actor-Type"

abbrev pub auth_actor_id_header : String
auth_actor_id_header = "X-A2A-Actor-ID"

-- clearAuthPrincipalHeaders
unfoldable pub clear_auth_principal_headers : Headers → Headers
clear_auth_principal_headers headers = delete (is_named auth_actor_id_header) (
    delete (is_named auth_actor_type_header)
      (delete (is_named auth_group_id_header) (delete (is_named auth_principal_header) headers)))

abbrev cut_bearer : Option String → String
cut_bearer none = ""
cut_bearer (some token) = trim_space token

-- bearerToken
unfoldable pub bearer_token : Headers → String
unfolding get_header
bearer_token headers = cut_bearer (cut_prefix "Bearer " (get_header "Authorization" headers))

abbrev or_bearer : String → Headers → String
or_bearer token headers = if token == "" then bearer_token headers else token

-- tokenFromRequest
unfoldable pub token_from_request : Headers → String
unfolding get_header bearer_token
token_from_request headers = or_bearer (get_header "X-Admin-Token" headers) headers

-- isAdminRequest, with the configured token
unfoldable pub is_admin_request : String → Headers → Bool
unfolding token_from_request
is_admin_request admin_token headers =
    not (admin_token == "") && token_from_request headers == admin_token

-- The token by which a member is looked up.
unfoldable pub presented_token : Headers → String
unfolding get_header bearer_token
presented_token headers = or_bearer (get_header "X-Group-Member-Token" headers) headers

abbrev pub if_present : GroupMemberToken → Option GroupMember → Option GroupMemberToken
if_present t none = none
if_present t (some member) = some t

abbrev pub checked : ℕ → Option GroupMemberToken → Sql Tables (Option GroupMemberToken)
checked now none = pure none
checked now (some t) =
    if Tokens.token_usable t now
    then (do member ← Members.get t.group_id t.actor_type t.actor_id; pure (if_present t member))
    else pure none

-- memberTokenFromRequest
unfoldable pub member_token_from_request : Headers → Sql Tables (Option GroupMemberToken)
unfolding presented_token Tokens.get_by_token Tokens.token_usable Members.get asks ◌>>=◌
member_token_from_request headers =
    let token = presented_token headers in
    if token == ""
    then pure none
    else (do t ← Tokens.get_by_token token; now ← asks (λ env w. w.now); checked now t)

-- jsonError with a text of the platform, and with the text of an error
pub data Refusal : Type 0 where
  json_error : ℕ → String → Refusal
  internal_error : Error → Refusal

pub data Answer : Type 0 where
  refused : Refusal → Answer
  -- next.ServeHTTP
  forwarded : Request → Answer

-- The headers of a member's request, as they are set.
unfoldable pub mark_member : GroupMemberToken → Headers → Headers
unfolding set_header
mark_member t headers = set_header auth_actor_id_header t.actor_id (
    set_header auth_actor_type_header t.actor_type (
      set_header auth_group_id_header t.group_id
        (set_header auth_principal_header "member" headers)))

abbrev pub marked : Option GroupMemberToken → Headers → Headers
marked none headers = headers
marked (some t) headers = mark_member t headers

abbrev pub in_group : Result (Option GroupMember) → Option Refusal
in_group (err e) = some (internal_error e)
in_group (ok none) = some (json_error 403 "target agent is not in caller group")
in_group (ok (some member)) = none

-- What a request to an agent of the group is refused by, if it is.
unfoldable pub check_target : Option GroupMemberToken → String → Sql Tables (Option Refusal)
unfolding Members.get try ◌>>=◌
check_target none target = pure (some (json_error 401 "unauthorized"))
check_target (some t) target =
    if target == ""
    then pure (some (json_error 400 "missing agent name"))
    else (do member ← try (Members.get t.group_id "agent" target); pure (in_group member))

-- the same for a path inside a group
unfoldable pub check_scope : Option GroupMemberToken → Option String → Option Refusal
check_scope token none = none
check_scope none (some group) = some (json_error 401 "unauthorized")
check_scope (some t) (some group) =
    if not (group == "") && not (t.group_id == group)
    then some (json_error 403 "forbidden")
    else none

abbrev pub card_target : String → String
card_target path = path_tail path "/.well-known/agent-card/"

abbrev named_or : String → Option String → String
named_or target none = target
named_or target (some name) = name

abbrev pub agent_target : String → String
agent_target path = named_or (path_tail path "/agent/") (agent_card_subresource_name path)

abbrev pub check_if : Bool → Sql Tables (Option Refusal) → Sql Tables (Option Refusal)
check_if applies check = if applies then check else pure none

-- A refusal is the answer, otherwise the rest is.
abbrev pub unless : Option Refusal → Sql Tables Answer → Sql Tables Answer
unless none rest = rest
unless (some refusal) rest = pure (refused refusal)

-- What authMiddleware asks of a request that is not the administrator's.
unfoldable pub guard_request : Option GroupMemberToken → Request → Sql Tables Answer
unfolding requires_admin scoped_group_id path_tail agent_card_subresource_name check_target
    check_scope ◌>>=◌
guard_request token r =
    if requires_admin r.path r.method then pure (refused (json_error 401 "unauthorized")) else (do
      card ←
          check_if (has_prefix r.path "/.well-known/agent-card/")
            (check_target token (card_target r.path))
      unless card (
          unless (check_scope token (scoped_group_id r.path r.method)) (do
            agent ←
                check_if (has_prefix r.path "/agent/") (check_target token (agent_target r.path))
            unless agent (pure (forwarded r)))))

abbrev pub is_open : Request → Bool
is_open r = r.method == "OPTIONS" || r.path == "/health" || r.path == "/api/group-joins"

abbrev pub member_request : Request → Result (Option GroupMemberToken) → Sql Tables Answer
member_request r (err e) = pure (refused (internal_error e))
member_request r (ok token) = guard_request token (record r { headers = marked token r.headers })

-- authMiddleware
unfoldable pub auth_middleware : String → Request → Sql Tables Answer
unfolding clear_auth_principal_headers is_admin_request member_token_from_request set_header
    mark_member guard_request try ◌>>=◌
auth_middleware admin_token r =
    let headers = clear_auth_principal_headers r.headers in
    let cleared = record r { headers = headers } in
    if is_open r
    then pure (forwarded cleared)
    else if is_admin_request admin_token headers
    then pure (forwarded (record r { headers = set_header auth_principal_header "admin" headers }))
    else (do token ← try (member_token_from_request headers); member_request cleared token)
