-- ===== src/Human.antt =====
-- internal/svc/human_store.go: the people who use the platform, and their sessions. The tables of the
-- groups stand beside theirs, since a person who is deleted leaves every group.
pub mod Users
pub mod Sessions
pub mod Deletion
pub mod Revocation
mod Tests
use a2a_platform_go.Prelude.{ℕ, String, Option, List}
use a2a_platform_go.Group.{Tables}

pub record HumanUser : Type 0 where
  pub id : String
  pub handle : String
  pub display_name : String
  pub last_seen_at : Option ℕ
  pub created_at : ℕ
  pub updated_at : ℕ

pub record HumanSession : Type 0 where
  pub id : ℕ
  pub human_id : String
  pub token_hash : String
  pub expires_at : Option ℕ
  pub revoked_at : Option ℕ
  pub created_at : ℕ

pub record HumanTables : Type 0 where
  pub base : Tables
  pub users : List HumanUser
  pub sessions : List HumanSession
