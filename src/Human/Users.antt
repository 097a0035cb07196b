-- ===== src/Human/Users.antt =====
-- HumanUserStore: the table human_users, with the primary key `id` and the unique key `handle`.
use Prim.Native.String.{String}
use Prim.Native.Char.{code}
use a2a_platform_go.Prelude.{
  ℕ, suc, Bool, true, false, ◌&&◌, ◌||◌, not, Option, none, some, [], ◌∷◌, ◌++◌, ◌==◌, ◌=?◌, leb,
  is_some, find, update, delete, if◌then◌else◌,
}
use a2a_platform_go.Prelude.Text.{trim_space}
use a2a_platform_go.Sql.{
  Env, World, Sql, Result, ok, err, failure, duplicate_key, pure, raise, lift, asks, statement,
  query, exec, draw, try, transaction, ◌>>=◌, ◌>>◌,
}
use a2a_platform_go.Group.{GroupMember, GroupMemberToken, same_text}
use a2a_platform_go.Human.{HumanUser, HumanSession, HumanTables}

abbrev is_letter_or_digit : ℕ → Bool
is_letter_or_digit c = (leb 48 c && leb c 57) || (leb 65 c && leb c 90) || (leb 97 c && leb c 122)

abbrev is_handle_char : ℕ → Bool
is_handle_char c = is_letter_or_digit c || c =? 95 || c =? 46 || c =? 45

unfoldable pub all_handle_chars : String → Bool
all_handle_chars String.[] = true
all_handle_chars (String.◌∷◌ c s) = is_handle_char (code c) && all_handle_chars s

unfoldable pub char_count : String → ℕ
char_count String.[] = 0
char_count (String.◌∷◌ c s) = suc (char_count s)

-- handleRe: a letter or digit, and 2 to 63 characters more.
unfoldable pub handle_matches : String → Bool
unfolding all_handle_chars char_count
handle_matches String.[] = false
handle_matches (String.◌∷◌ c s) =
    is_letter_or_digit (code c)
    && all_handle_chars s
    && leb 2 (char_count s)
    && leb (char_count s) 63

-- ValidateHumanHandle
unfoldable pub validate_human_handle : String → Result (Unit {0})
unfolding handle_matches
validate_human_handle handle =
    if handle_matches handle
    then ok tt
    else err (
        failure
          "handle must be 3-64 characters and contain only letters, numbers, dot, underscore, or dash")

abbrev pub has_id : Env → String → HumanUser → Bool
has_id env id u = same_text env id u.id

abbrev pub has_handle : Env → String → HumanUser → Bool
has_handle env handle u = same_text env handle u.handle

abbrev taken : Env → String → String → HumanUser → Bool
taken env id handle u = has_handle env handle u && not (has_id env id u)

abbrev insert_row : HumanUser → Env → World HumanTables → Result (Unit {0}) × HumanTables
insert_row u env w =
    if is_some (find (has_id env u.id) w.tables.users)
      || is_some (find (has_handle env u.handle) w.tables.users)
    then (err duplicate_key, w.tables)
    else (
      ok tt,
      record w.tables {
        users = w.tables.users ++ record u { created_at = w.now; updated_at = w.now } ∷ [];
      },
    )

-- An UPDATE that gives a handle that another row has is refused as a duplicate.
abbrev update_row : String → String → String → Env → World HumanTables → Result Bool × HumanTables
update_row id handle display_name env w =
    if is_some (find (has_id env id) w.tables.users)
      && is_some (find (taken env id handle) w.tables.users)
    then (err duplicate_key, w.tables)
    else (
      ok (is_some (find (has_id env id) w.tables.users)),
      record w.tables {
        users =
            update (has_id env id)
              (λ u. record u { handle = handle; display_name = display_name; updated_at = w.now })
              w.tables.users;
      },
    )

abbrev rename_error : {A : Type 0} → Result A → Sql HumanTables A
rename_error (ok a) = pure a
rename_error (err duplicate_key) = raise (failure "handle already exists")
rename_error (err e) = raise e

-- `lower` is strings.ToLower.
module _ (lower : String → String) where
  unfoldable pub normalize_human_handle : String → String
  unfolding trim_space
  normalize_human_handle handle = lower (trim_space handle)

  abbrev or_handle : String → String → String
  or_handle handle display_name = if display_name == "" then handle else display_name

  unfoldable pub get : String → Sql HumanTables (Option HumanUser)
  unfolding query find trim_space
  get id = query (λ env w. ok (find (has_id env (trim_space id)) w.tables.users))

  unfoldable pub get_by_handle : String → Sql HumanTables (Option HumanUser)
  unfolding query find normalize_human_handle
  get_by_handle handle =
      query (λ env w. ok (find (has_handle env (normalize_human_handle handle)) w.tables.users))

  abbrev new_user : String → String → String → HumanUser
  new_user id handle display_name = record {
    id = id;
    handle = handle;
    display_name = or_handle handle (trim_space display_name);
    last_seen_at = none;
    created_at = 0;
    updated_at = 0;
  }

  unfoldable pub create : String → String → Sql HumanTables (Option HumanUser)
  unfolding normalize_human_handle validate_human_handle lift draw asks statement try get ◌>>=◌
  create handle display_name =
      let h = normalize_human_handle handle in
      do
        lift (validate_human_handle h)
        n ← draw
        id ← asks (λ env w. env.identifier n)
        inserted ← try (statement (insert_row (new_user id h display_name)))
        rename_error inserted
        get id

  abbrev found_after : String → Bool → Sql HumanTables (Option HumanUser)
  found_after id false = pure none
  found_after id true = get id

  -- Update; a row that is matched counts as affected.
  unfoldable pub edit : String → String → String → Sql HumanTables (Option HumanUser)
  unfolding normalize_human_handle validate_human_handle lift statement try get ◌>>=◌
  edit id handle display_name =
      let h = normalize_human_handle handle in
      do
        lift (validate_human_handle h)
        changed ←
            try (statement (update_row (trim_space id) h (or_handle h (trim_space display_name))))
        affected ← rename_error changed
        found_after (trim_space id) affected

unfoldable pub touch_last_seen : String → Sql HumanTables (Unit {0})
unfolding exec update trim_space
touch_last_seen id = exec (λ env w. record w.tables {
  users =
      update (has_id env (trim_space id)) (λ u. record u { last_seen_at = some w.now })
        w.tables.users;
})

abbrev pub of_human : Env → String → HumanSession → Bool
of_human env id s = same_text env id s.human_id

abbrev pub token_of : Env → String → GroupMemberToken → Bool
token_of env id t = same_text env "human" t.actor_type && same_text env id t.actor_id

abbrev pub member_of : Env → String → GroupMember → Bool
member_of env id m = same_text env "human" m.actor_type && same_text env id m.actor_id

-- The statements of Delete, in their order.
abbrev pub revoke_sessions : String → Env → World HumanTables → HumanTables
revoke_sessions id env w = record w.tables {
  sessions =
      update (λ s. of_human env id s && not (is_some s.revoked_at))
        (λ s. record s { revoked_at = some w.now }) w.tables.sessions;
}

abbrev pub revoke_tokens : String → Env → World HumanTables → HumanTables
revoke_tokens id env w = record w.tables {
  base = record w.tables.base {
    tokens =
        update (λ t. token_of env id t && not (is_some t.revoked_at))
          (λ t. record t { revoked_at = some w.now }) w.tables.base.tokens;
  };
}

abbrev pub delete_tokens : String → Env → World HumanTables → HumanTables
delete_tokens id env w = record w.tables {
  base = record w.tables.base { tokens = delete (token_of env id) w.tables.base.tokens };
}

abbrev pub delete_members : String → Env → World HumanTables → HumanTables
delete_members id env w = record w.tables {
  base = record w.tables.base { members = delete (member_of env id) w.tables.base.members };
}

abbrev pub delete_sessions : String → Env → World HumanTables → HumanTables
delete_sessions id env w = record w.tables { sessions = delete (of_human env id) w.tables.sessions }

abbrev pub delete_user : String → Env → World HumanTables → Result Bool × HumanTables
delete_user id env w = (
  ok (is_some (find (has_id env id) w.tables.users)),
  record w.tables { users = delete (has_id env id) w.tables.users },
)

unfoldable pub delete_body : String → Sql HumanTables Bool
unfolding exec statement update delete ◌>>=◌
delete_body id =
    exec (revoke_sessions id)
    >> (exec (revoke_tokens id)
        >> (exec (delete_tokens id)
            >> (exec (delete_members id)
                >> (exec (delete_sessions id) >> statement (delete_user id)))))

-- Delete: whether there was such a person.
unfoldable pub remove : String → Sql HumanTables Bool
unfolding transaction delete_body trim_space
remove id = transaction (delete_body (trim_space id))
