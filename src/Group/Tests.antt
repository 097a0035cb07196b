-- ===== src/Group/Tests.antt =====
-- Groups on concrete tables.
use Prim.Native.String.{◌++◌}
use a2a_platform_go.Prelude.{
  ℕ, zero, suc, ◌≤◌, String, ◌≡◌, refl, none, some, List, [], ◌∷◌, arith, find, update, ◌==◌, ◌&&◌,
}
use a2a_platform_go.Prelude.Text.{trim_space}
use a2a_platform_go.Group.Members.{upsert_row}
use a2a_platform_go.Sql.{Env, World}
use a2a_platform_go.Group.{
  Group, GroupInvite, GroupMember, GroupMemberToken, Tables, empty_tables, normalize_actor_type,
}
use a2a_platform_go.Group.Invites.{usable, consumable}
use a2a_platform_go.Group.Invites.Agree.{usable_lem, is_allowed}
use a2a_platform_go.Group.Invites.Uses.{Attempt, successes, successes_le}

-- A text of n ones.
abbrev ones : ℕ → String
ones zero = ""
ones (suc n) = "1" ++ ones n

abbrev pub env : Env
env = record {
  collation = λ s. s;
  digest = λ s. "#" ++ s;
  identifier = λ n. ones n;
  access_token = λ n. some ("t" ++ ones n);
}

abbrev pub world : Tables → World Tables
world tables = record { tables = tables; faults = []; seq = 1; now = 5 }

abbrev pub group : Group
group = record {
  id = "g";
  name = "G";
  description = "";
  orchestration_mode = "free_chat";
  rules_json = "";
  memory_policy_json = "";
  status = "active";
  created_at = 0;
  updated_at = 0;
}

abbrev pub invite : GroupInvite
invite = record {
  id = 7;
  group_id = "g";
  token_hash = "#invite";
  actor_type_allowed = "";
  role = "member";
  max_uses = 2;
  used_count = 0;
  expires_at = none;
  status = "active";
  created_at = 0;
}

abbrev pub tables : Tables
tables = record empty_tables { groups = group ∷ []; invites = invite ∷ [] }

abbrev pub member : String → GroupMember
member actor_id = record {
  id = 0;
  group_id = "g";
  actor_type = "agent";
  actor_id = actor_id;
  role = "";
  capabilities_json = "";
  joined_at = 0;
}

abbrev pub token : String → GroupMemberToken
token actor_id = record {
  id = 0;
  group_id = "g";
  actor_type = "agent";
  actor_id = actor_id;
  token_hash = "";
  expires_at = none;
  revoked_at = none;
  created_at = 0;
}

abbrev request : String → Attempt
request actor_id = record { instant = 6; member = member actor_id; token = token actor_id }

abbrev requests : List Attempt
requests = request "a" ∷ request "b" ∷ request "c" ∷ []

-- Two of three requests to join are served.
two_successes : successes 7 requests env (world tables) ≡ 2
unfolding successes find update upsert_row normalize_actor_type trim_space
two_successes = refl

successes_le_example : successes 7 requests env (world tables) ≤ 2
successes_le_example = successes_le 7 env requests (world tables) ((λ e. omega arith), tt)

-- An invite with one use left, for an agent.
usable_lem_example : usable (record invite { used_count = 1 }) "agent" 6 ≡ (
    invite.status == "active"
    && is_allowed invite "agent"
    && consumable env 6 (record invite { used_count = 1 }))
usable_lem_example = usable_lem env (record invite { used_count = 1 }) "agent" 6
