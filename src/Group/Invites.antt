-- ===== src/Group/Invites.antt =====
-- GroupInviteStore: invites, and joining a group by one in a single transaction.
pub mod Admit
pub mod Uses
pub mod Agree
use a2a_platform_go.Prelude.{
  ℕ, ◌+◌, String, Bool, true, false, ◌&&◌, ◌||◌, Option, none, some, List, [], ◌∷◌, ◌++◌, ◌==◌,
  ◌=?◌, leb, ltb, not, if◌then◌else◌, is_some, find, select, update,
}
use a2a_platform_go.Prelude.Text.{trim_space}
use a2a_platform_go.Sql.{
  Env, World, Sql, Result, ok, err, db_error, failure, duplicate_key, pure, raise, lift, asks,
  statement, query, exec, draw, transaction, ◌>>=◌, ◌>>◌,
}
use a2a_platform_go.Group.{
  GroupInvite, GroupMember, GroupMemberToken, Tables, same_text, normalize_actor_type, or_default,
}
use a2a_platform_go.Group.Members
use a2a_platform_go.Group.Tokens
use a2a_platform_go.Group.Tokens.{not_expired, hash_access_token}

abbrev allowed : String → String
allowed actor_type = if actor_type == "" then "" else normalize_actor_type actor_type

unfoldable pub normalize_invite : GroupInvite → GroupInvite
normalize_invite i = record i {
  group_id = trim_space i.group_id;
  actor_type_allowed = allowed (trim_space i.actor_type_allowed);
  role = or_default "member" i.role;
  max_uses = if i.max_uses =? 0 then 1 else i.max_uses;
  status = or_default "active" i.status;
}

abbrev pub has_hash : Env → String → GroupInvite → Bool
has_hash env hash i = same_text env hash i.token_hash

-- INSERT INTO group_invites: token_hash is UNIQUE.
unfoldable pub insert_row : ℕ → GroupInvite → Env → World Tables → Result (Unit {0}) × Tables
insert_row n i env w =
    if is_some (find (has_hash env i.token_hash) w.tables.invites)
    then (err duplicate_key, w.tables)
    else (
      ok tt,
      record w.tables {
        invites = w.tables.invites ++ record i { id = n; created_at = w.now } ∷ [];
      },
    )

unfoldable pub get_by_token : String → Sql Tables (Option GroupInvite)
unfolding query
get_by_token token =
    query (λ env w. ok (find (has_hash env (hash_access_token env token)) w.tables.invites))

-- Create returns an empty token where the invite is not found again.
abbrev created : String → Option GroupInvite → String
created token none = ""
created token (some stored) = token

unfoldable pub create : GroupInvite → Sql Tables String
unfolding Tokens.new_access_token normalize_invite insert_row get_by_token draw asks statement ◌>>=◌
create i = do
  token ← Tokens.new_access_token
  hash ← asks (λ env w. hash_access_token env token)
  n ← draw
  statement (insert_row n (record (normalize_invite i) { token_hash = hash }))
  stored ← get_by_token token
  pure (created token stored)

-- The condition of the UPDATE in consumeInvite.
unfoldable pub consumable : Env → ℕ → GroupInvite → Bool
consumable env now i =
    same_text env i.status "active"
    && not_expired i.expires_at now
    && (i.max_uses =? 0 || ltb i.used_count i.max_uses)

abbrev pub selected : ℕ → Env → ℕ → GroupInvite → Bool
selected id env now i = id =? i.id && consumable env now i

abbrev pub use_once : GroupInvite → GroupInvite
use_once i = record i { used_count = i.used_count + 1 }

-- RowsAffected is 0 where no invite is selected: ErrInviteNotUsable.
unfoldable pub consume_row : ℕ → Env → World Tables → Result (Unit {0}) × Tables
unfolding consumable
consume_row id env w = (
  if is_some (find (selected id env w.now) w.tables.invites)
      then ok tt
      else err (failure "invite is no longer usable"),
  record w.tables { invites = update (selected id env w.now) use_once w.tables.invites },
)

-- consumeInvite
unfoldable pub consume : ℕ → Sql Tables (Unit {0})
unfolding consume_row statement
consume id = statement (consume_row id)

-- QueryRow of the member that was written: no row is an error here.
abbrev pub present : Option GroupMember → Sql Tables GroupMember
present none = raise db_error
present (some m) = pure m

-- What the transaction does behind the consumption: the member's row, the members of the group and
-- the plain token.
unfoldable pub admit :
    GroupMember → GroupMemberToken → Sql Tables (GroupMember × List GroupMember × String)
unfolding Members.insert_member Members.get Members.list Tokens.create ◌>>=◌
admit member token =
    let m = Members.normalize_member member in
    do
      Members.insert_member m
      stored ← Members.get m.group_id m.actor_type m.actor_id
      joined ← present stored
      members ← Members.list joined.group_id
      plain ← Tokens.create token
      pure (joined, members, plain)

-- The body of the transaction.
unfoldable pub join_body :
    ℕ → GroupMember → GroupMemberToken → Sql Tables (GroupMember × List GroupMember × String)
unfolding consume admit ◌>>=◌
join_body id member token = do consume id; admit member token

-- ConsumeAndCreateMemberToken
unfoldable pub consume_and_create_member_token :
    ℕ → GroupMember → GroupMemberToken → Sql Tables (GroupMember × List GroupMember × String)
unfolding transaction join_body
consume_and_create_member_token id member token = transaction (join_body id member token)

-- InviteUsable of an invite that was found.
unfoldable pub usable : GroupInvite → String → ℕ → Bool
usable i actor_type now =
    i.status == "active"
    && (i.actor_type_allowed == "" || i.actor_type_allowed == normalize_actor_type actor_type)
    && (i.max_uses =? 0 || not (leb i.max_uses i.used_count))
    && not_expired i.expires_at now

-- InviteUsable
unfoldable pub invite_usable : Option GroupInvite → String → ℕ → Bool
unfolding usable
invite_usable none actor_type now = false
invite_usable (some i) actor_type now = usable i actor_type now
