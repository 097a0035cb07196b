-- ===== src/Group.antt =====
-- internal/svc/group_store.go and the group types of internal/model/types.go: the tables of groups,
-- members, invites, member tokens, events and artifacts, and the values that the stores normalise.
pub mod Groups
pub mod Members
pub mod Tokens
pub mod Invites
pub mod Events
pub mod Artifacts
pub mod Tests
use a2a_platform_go.Prelude.{ℕ, String, Bool, Option, List, [], ◌==◌, if◌then◌else◌}
use a2a_platform_go.Prelude.Text.{trim_space}
use a2a_platform_go.Sql.{Env}

-- model.Group
pub record Group : Type 0 where
  pub id : String
  pub name : String
  pub description : String
  pub orchestration_mode : String
  pub rules_json : String
  pub memory_policy_json : String
  pub status : String
  pub created_at : ℕ
  pub updated_at : ℕ

-- model.GroupMember
pub record GroupMember : Type 0 where
  pub id : ℕ
  pub group_id : String
  pub actor_type : String
  pub actor_id : String
  pub role : String
  pub capabilities_json : String
  pub joined_at : ℕ

-- model.GroupInvite. `max_uses` is 0 for every number that is not positive: the code only asks
-- whether it is. An empty `actor_type_allowed` is stored as NULL, and a NULL is read as empty.
pub record GroupInvite : Type 0 where
  pub id : ℕ
  pub group_id : String
  pub token_hash : String
  pub actor_type_allowed : String
  pub role : String
  pub max_uses : ℕ
  pub used_count : ℕ
  pub expires_at : Option ℕ
  pub status : String
  pub created_at : ℕ

-- model.GroupMemberToken
pub record GroupMemberToken : Type 0 where
  pub id : ℕ
  pub group_id : String
  pub actor_type : String
  pub actor_id : String
  pub token_hash : String
  pub expires_at : Option ℕ
  pub revoked_at : Option ℕ
  pub created_at : ℕ

-- model.GroupEvent
pub record GroupEvent : Type 0 where
  pub id : ℕ
  pub group_id : String
  pub event_type : String
  pub sender_type : String
  pub sender_id : String
  pub content : String
  pub metadata_json : String
  pub created_at : ℕ

-- model.GroupArtifact
pub record GroupArtifact : Type 0 where
  pub id : String
  pub group_id : String
  pub name : String
  pub artifact_type : String
  pub version : ℕ
  pub content : String
  pub status : String
  pub created_by : String
  pub created_at : ℕ
  pub updated_at : ℕ

pub record Tables : Type 0 where
  pub groups : List Group
  pub members : List GroupMember
  pub invites : List GroupInvite
  pub tokens : List GroupMemberToken
  pub events : List GroupEvent
  pub artifacts : List GroupArtifact

abbrev pub empty_tables : Tables
empty_tables = record {
  groups = [];
  members = [];
  invites = [];
  tokens = [];
  events = [];
  artifacts = [];
}

-- `=` of MySQL between texts: equality of the collation's sort keys.
abbrev pub same_text : Env → String → String → Bool
same_text env a b = env.collation a == env.collation b

unfoldable pub normalize_group_mode : String → String
normalize_group_mode mode =
    let m = trim_space mode in
    if m == "p2p"
    then "p2p"
    else if m == "free_chat"
    then "free_chat"
    else if m == "roundtable"
    then "roundtable"
    else if m == "stateflow"
    then "stateflow"
    else if m == "research_long_horizon"
    then "research_long_horizon"
    else "leader_led"

unfoldable pub normalize_actor_type : String → String
normalize_actor_type actor_type =
    let a = trim_space actor_type in
    if a == "human" then "human" else if a == "system" then "system" else "agent"

abbrev pub or_default : String → String → String
or_default default s = if s == "" then default else s
