-- ===== src/Posting.antt =====
-- internal/handler/group.go, GroupEventHandler: the events of a group are listed, or one is posted,
-- which the group's turn follows. The answer that is streamed is not modelled.
pub mod Sender
mod Tests
use a2a_platform_go.Prelude.{
  ℕ, String, Bool, true, false, ◌&&◌, not, Option, none, some, List, [], ◌∷◌, ◌==◌, if◌then◌else◌,
}
use a2a_platform_go.Prelude.Text.{trim_space}
use a2a_platform_go.Sql.{Sql, pure, ◌>>=◌, ◌>>◌}
use a2a_platform_go.Group.{Group, GroupMember, GroupEvent, Tables}
use a2a_platform_go.Group.Groups
use a2a_platform_go.Group.Members
use a2a_platform_go.Group.Events
use a2a_platform_go.Auth.{
  Headers, get_header, auth_principal_header, auth_actor_type_header, auth_actor_id_header,
}
use a2a_platform_go.Turn.{Platform, maybe_run_group_turn}
use a2a_platform_go.Turn.Orchestration.{GroupOrchestrationState, build_group_orchestration_state}

pub record EventReq : Type 0 where
  pub event_type : String
  pub sender_type : String
  pub sender_id : String
  pub content : String
  pub metadata : String

pub data Response : Type 0 where
  json_error : ℕ → String → Response
  events : List GroupEvent → Response
  posted : GroupEvent → GroupOrchestrationState → List GroupEvent → Response

-- isMemberPrincipal
unfoldable pub is_member_principal : Headers → Bool
unfolding get_header
is_member_principal headers = get_header auth_principal_header headers == "member"

-- The sender is the actor of the member's token.
unfoldable pub is_own : Headers → EventReq → Bool
unfolding get_header trim_space
is_own headers req =
    req.sender_type == get_header auth_actor_type_header headers
    && trim_space req.sender_id == get_header auth_actor_id_header headers

abbrev pub event_of : Group → EventReq → GroupEvent
event_of group req = record {
  id = 0;
  group_id = group.id;
  event_type = req.event_type;
  sender_type = req.sender_type;
  sender_id = trim_space req.sender_id;
  content = req.content;
  metadata_json = req.metadata;
  created_at = 0;
}

abbrev list_in : ℕ → Option Group → Sql Tables Response
list_in limit none = pure (json_error 404 "group not found")
list_in limit (some group) = do found ← Events.list group.id limit; pure (events found)

-- GET
unfoldable pub get_events : String → ℕ → Sql Tables Response
unfolding Groups.get Events.list ◌>>=◌
get_events group_id limit = do group ← Groups.get group_id; list_in limit group

module _ (p : Platform) (headers : Headers) where
  abbrev pub accept : Group → GroupEvent → Sql Tables Response
  accept group event = do
    appended ← Events.append event
    members ← Members.list group.id
    triggered ← maybe_run_group_turn p group appended members
    pure (posted appended (build_group_orchestration_state group members) triggered)

  abbrev pub post_decoded : Group → Option EventReq → Sql Tables Response
  post_decoded group none = pure (json_error 400 "invalid JSON")
  post_decoded group (some req) =
      if trim_space req.sender_id == ""
      then pure (json_error 400 "sender_id is required")
      else if is_member_principal headers && not (is_own headers req)
      then pure (json_error 403 "sender does not match access token")
      else accept group (event_of group req)

  abbrev pub post_to : Option EventReq → Option Group → Sql Tables Response
  post_to req none = pure (json_error 404 "group not found")
  post_to req (some group) =
      if group.orchestration_mode == "p2p"
      then pure (json_error 409 "p2p groups do not accept group events; use direct agent chat")
      else post_decoded group req

  -- POST, with the body as encoding/json decodes it, if it does
  unfoldable pub post_event : Option EventReq → String → Sql Tables Response
  unfolding Groups.get Events.append Members.list maybe_run_group_turn
      build_group_orchestration_state is_member_principal is_own ◌>>=◌
  post_event req group_id = do group ← Groups.get group_id; post_to req group
