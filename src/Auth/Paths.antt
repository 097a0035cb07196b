-- ===== src/Auth/Paths.antt =====
-- cmd/server/main.go: how a request's path is taken apart, and which paths are for the administrator
-- or for the members of one group.
use a2a_platform_go.Prelude.{
  String, Bool, false, ◌&&◌, ◌||◌, not, Option, none, some, List, [], ◌∷◌, ◌==◌, ◌=?◌,
  if◌then◌else◌,
}
use a2a_platform_go.Prelude.Text.{
  has_prefix, has_suffix, cut_prefix, cut_suffix, split, trim_right_where,
}

abbrev trimmed : Option String → String
trimmed none = ""
trimmed (some tail) = trim_right_where (λ c. c =? b'/') tail

-- pathTail
unfoldable pub path_tail : String → String → String
unfolding cut_prefix trim_right_where
path_tail path prefix = trimmed (cut_prefix prefix path)

abbrev or_cut : Option String → Option String → Option String
or_cut none o = o
or_cut (some s) o = some s

-- agentCardSubresourceName
unfoldable pub agent_card_subresource_name : String → Option String
unfolding path_tail cut_suffix
agent_card_subresource_name path =
    let tail = path_tail path "/agent/" in
    or_cut (cut_suffix tail "/.well-known/agent-card.json")
      (cut_suffix tail "/.well-known/agent.json")

-- the parts of a path `{group}/members/{actor type}/{actor}`
abbrev pub is_member_path : List String → Bool
is_member_path (group ∷ members ∷ actor_type ∷ actor_id ∷ []) =
    members == "members" && not (actor_type == "") && not (actor_id == "")
is_member_path _ = false

-- isGroupMemberDelete
unfoldable pub is_group_member_delete : String → String → Bool
unfolding path_tail has_prefix split
is_group_member_delete path method =
    method == "DELETE"
    && has_prefix path "/api/groups/"
    && is_member_path (split b'/' (path_tail path "/api/groups/"))

-- requiresAdmin of a path behind "/api/groups/"
abbrev pub group_requires_admin : String → String → Bool
group_requires_admin path method =
    if is_group_member_delete path method
    then false
    else method == "PUT"
      || method == "DELETE"
      || (has_suffix path "/members" && method == "POST")
      || has_suffix path "/invites"
      || has_suffix path "/join"

-- requiresAdmin
unfoldable pub requires_admin : String → String → Bool
unfolding is_group_member_delete has_prefix has_suffix
requires_admin path method =
    has_prefix path "/api/agents"
    || has_prefix path "/api/builtin-agents"
    || path == "/api/stats"
    || path == "/api/humans"
    || (has_prefix path "/api/humans/"
        && not (path == "/api/humans/register")
        && not (path == "/api/humans/login")
        && not (path == "/api/humans/me"))
    || has_prefix path "/api/tasks"
    || has_prefix path "/api/traces"
    || has_prefix path "/api/contexts"
    || has_prefix path "/api/subagents"
    || path == "/api/events"
    || (method == "POST" && path == "/api/groups")
    || (has_prefix path "/api/groups/" && group_requires_admin path method)

abbrev is_scoped_part : String → Bool
is_scoped_part part =
    part == "members" || part == "events" || part == "artifacts" || part == "orchestration"

abbrev scoped_parts : String → List String → Option String
scoped_parts method [] = none
scoped_parts method (group ∷ []) = if method == "GET" then some group else none
scoped_parts method (group ∷ part ∷ _) = if is_scoped_part part then some group else none

-- scopedGroupID: the group whose members alone may come here; "" stands for any group.
unfoldable pub scoped_group_id : String → String → Option String
unfolding path_tail has_prefix split
scoped_group_id path method =
    let tail = path_tail path "/api/groups/" in
    if path == "/api/groups" && method == "GET"
    then some ""
    else if not (has_prefix path "/api/groups/")
    then none
    else if tail == ""
    then none
    else scoped_parts method (split b'/' tail)
