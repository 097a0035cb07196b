-- ===== src/Membership.antt =====
-- internal/handler/group.go, GroupMemberHandler: the members of a group are listed, written and
-- removed. An error of a store ends the request, with the status 500.
pub mod Removal
mod Tests
use a2a_platform_go.Prelude.{
  ℕ, String, Bool, true, false, ◌&&◌, not, Option, none, some, List, [], ◌∷◌, ◌==◌, if◌then◌else◌,
}
use a2a_platform_go.Prelude.Text.{trim_space}
use a2a_platform_go.Sql.{Sql, pure, ◌>>=◌, ◌>>◌}
use a2a_platform_go.Group.{Group, GroupMember, Tables, normalize_actor_type}
use a2a_platform_go.Group.Groups
use a2a_platform_go.Group.Members
use a2a_platform_go.Group.Tokens
use a2a_platform_go.Auth.{
  Headers, get_header, auth_principal_header, auth_group_id_header, auth_actor_type_header,
  auth_actor_id_header,
}

pub data Response : Type 0 where
  json_error : ℕ → String → Response
  listed : List GroupMember → Response

-- authorizedToDeleteMember
unfoldable pub authorized_to_delete_member : Headers → String → String → String → Bool
unfolding get_header
authorized_to_delete_member headers group_id actor_type actor_id =
    let principal = get_header auth_principal_header headers in
    if principal == "admin"
    then true
    else if not (principal == "member")
    then false
    else get_header auth_group_id_header headers == group_id
      && get_header auth_actor_type_header headers == actor_type
      && get_header auth_actor_id_header headers == actor_id

-- What names the actor: the query, or else the path.
pub record Target : Type 0 where
  pub query_type : String
  pub query_id : String
  pub path_type : String
  pub path_id : String

abbrev first_of : String → String → String
first_of a b = if a == "" then b else a

abbrev pub target_type : Target → String
target_type t = normalize_actor_type (first_of (trim_space t.query_type) (trim_space t.path_type))

abbrev pub target_id : Target → String
target_id t = first_of (trim_space t.query_id) (trim_space t.path_id)

-- listMembers
abbrev pub list_members : String → Sql Tables Response
list_members group_id = do members ← Members.list group_id; pure (listed members)

abbrev pub removed : String → String → String → Sql Tables Response
removed group_id actor_type actor_id = do
  Members.remove group_id actor_type actor_id
  Tokens.revoke_actor group_id actor_type actor_id
  list_members group_id

abbrev pub remove_from : Headers → Target → Option Group → Sql Tables Response
remove_from headers target none = pure (json_error 404 "group not found")
remove_from headers target (some group) =
    if target_id target == ""
    then pure (json_error 400 "actor_id is required")
    else if not
        (authorized_to_delete_member headers group.id (target_type target) (target_id target))
    then pure (json_error 403 "forbidden")
    else removed group.id (target_type target) (target_id target)

-- DELETE
unfoldable pub delete_member : Headers → String → Target → Sql Tables Response
unfolding authorized_to_delete_member Groups.get Members.remove Tokens.revoke_actor Members.list
    ◌>>=◌
delete_member headers group_id target = do
  group ← Groups.get group_id
  remove_from headers target group

abbrev list_of : Option Group → Sql Tables Response
list_of none = pure (json_error 404 "group not found")
list_of (some group) = list_members group.id

-- GET
unfoldable pub get_members : String → Sql Tables Response
unfolding Groups.get Members.list ◌>>=◌
get_members group_id = do group ← Groups.get group_id; list_of group

-- memberReq, as far as it is read for a member that the administrator writes
pub record MemberReq : Type 0 where
  pub actor_type : String
  pub actor_id : String
  pub role : String
  pub capabilities : String

abbrev written : String → MemberReq → GroupMember
written group_id req = record {
  id = 0;
  group_id = group_id;
  actor_type = req.actor_type;
  actor_id = trim_space req.actor_id;
  role = req.role;
  capabilities_json = req.capabilities;
  joined_at = 0;
}

abbrev write_to : Option MemberReq → Option Group → Sql Tables Response
write_to req none = pure (json_error 404 "group not found")
write_to none (some group) = pure (json_error 400 "invalid JSON")
write_to (some req) (some group) =
    if trim_space req.actor_id == ""
    then pure (json_error 400 "actor_id is required")
    else (do Members.upsert (written group.id req); list_members group.id)

-- POST, with the body as encoding/json decodes it, if it does
unfoldable pub post_member : Option MemberReq → String → Sql Tables Response
unfolding Groups.get Members.upsert Members.list ◌>>=◌
post_member req group_id = do group ← Groups.get group_id; write_to req group
