-- ===== src/Membership/Tests.antt =====
-- The removal of one of two members.
use a2a_platform_go.Prelude.{◌≡◌, refl, true, false, [], ◌∷◌, find, update, delete, select}
use a2a_platform_go.Prelude.Text.{trim_space}
use a2a_platform_go.Sql.{ok}
use a2a_platform_go.Group.{GroupMemberToken, Tables, normalize_actor_type}
use a2a_platform_go.Group.Tokens.{holds_for, token_usable}
use a2a_platform_go.Group.Tests.{env, world, group, member, token, tables}
use a2a_platform_go.Auth.{Headers, presented_token}
use a2a_platform_go.Auth.Principal.{IsProved}
use a2a_platform_go.Membership.{Target, listed, delete_member, authorized_to_delete_member}
use a2a_platform_go.Membership.Removal.{delete_member-IsProved}

abbrev token_b : GroupMemberToken
token_b = record (token "b") { token_hash = "#secret_b" }

abbrev joined : Tables
joined = record tables {
  members = member "a" ∷ member "b" ∷ [];
  tokens = record (token "a") { token_hash = "#secret_a" } ∷ token_b ∷ [];
}

-- "a" leaves.
abbrev leaving : Headers
leaving =
    ("X-A2A-Principal", "member")
    ∷ ("X-A2A-Group-ID", "g")
    ∷ ("X-A2A-Actor-Type", "agent")
    ∷ ("X-A2A-Actor-ID", "a")
    ∷ []

abbrev target : Target
target = record { query_type = ""; query_id = ""; path_type = "agent"; path_id = "a" }

abbrev later : Headers
later = ("X-Group-Member-Token", "secret_b") ∷ []

delete_member-listed :
    (delete_member leaving "g" target env (world joined)).0 ≡ ok (listed (member "b" ∷ []))
unfolding delete_member find update delete select trim_space normalize_actor_type
delete_member-listed = refl

token_b-IsProved :
    IsProved env 9 (delete_member leaving "g" target env (world joined)).1.tables later token_b
unfolding delete_member find update delete select trim_space normalize_actor_type presented_token
    token_usable
token_b-IsProved = record { stored = refl; usable = refl; member = member "b"; joined = refl }

delete_member-IsProved_example :
    (authorized_to_delete_member leaving "g" "agent" "a" ≡ true)
    × (holds_for env "g" "agent" "a" token_b ≡ false)
unfolding find trim_space normalize_actor_type
delete_member-IsProved_example =
    delete_member-IsProved env leaving "g" target (world joined) (member "b" ∷ []) group 9 later
      token_b delete_member-listed refl token_b-IsProved
