-- ===== src/Human/Tests.antt =====
-- A person with a session and a membership, who is deleted; and a session that is ended.
use a2a_platform_go.Prelude.{
  ℕ, ◌≡◌, refl, true, false, Option, none, some, [], ◌∷◌, find, update, delete,
}
use a2a_platform_go.Prelude.Text.{trim_space}
use a2a_platform_go.Sql.{World}
use a2a_platform_go.Group.Tests.{env, tables, member, token}
use a2a_platform_go.Human.{HumanUser, HumanSession, HumanTables}
use a2a_platform_go.Human.Users.{remove, handle_matches}
use a2a_platform_go.Human.Sessions.{revoke, get_by_token, human_session_usable}
use a2a_platform_go.Human.Deletion.{IsGone, remove-IsGone}
use a2a_platform_go.Human.Revocation.{revoke-human_session_usable}

abbrev user : HumanUser
user = record {
  id = "h";
  handle = "ada";
  display_name = "Ada";
  last_seen_at = none;
  created_at = 1;
  updated_at = 1;
}

abbrev session : Option ℕ → HumanSession
session revoked_at = record {
  id = 1;
  human_id = "h";
  token_hash = "#s";
  expires_at = none;
  revoked_at = revoked_at;
  created_at = 1;
}

abbrev before : World HumanTables
before = record {
  tables = record {
    base = record tables {
      members = record (member "h") { actor_type = "human" } ∷ member "a" ∷ [];
      tokens = record (token "h") { actor_type = "human" } ∷ [];
    };
    users = user ∷ [];
    sessions = session none ∷ [];
  };
  faults = [];
  seq = 1;
  now = 5;
}

remove-IsGone_example : IsGone env (trim_space "h") (remove "h" env before).1.tables
unfolding remove find update delete
remove-IsGone_example = remove-IsGone env "h" before true refl

revoke-human_session_usable_example : human_session_usable (some (session (some 5))) 9 ≡ false
unfolding revoke get_by_token find update trim_space
revoke-human_session_usable_example =
    revoke-human_session_usable env "s" before (revoke "s" env before).1 (some (session (some 5))) 9
      refl refl refl

-- Two characters are too few.
handles : handle_matches "ada" ≡ true × handle_matches "ad" ≡ false × handle_matches "_da" ≡ false
unfolding handle_matches
handles = (refl, refl, refl)
