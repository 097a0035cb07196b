-- ===== src/Group/Invites/Uses.antt =====
-- How often an invite is used: ConsumeAndCreateMemberToken called again and again.
use a2a_platform_go.Prelude.{
  ℕ, ◌+◌, ◌-◌, ◌≤◌, ◌<◌, String, ◌≡◌, refl, sym, ◌∙◌, ap, true, List, [], ◌∷◌, ◌=?◌, arith,
  if◌then◌else◌, find, update, All, All-update, is_some, inl, inr,
}
use a2a_platform_go.Sql.{Env, World, Result, ok, err, Error}
use a2a_platform_go.Sql.Invert.{
  bind_ok, statement_ok, transaction_ok, transaction_err, begin, begin_same,
}
use a2a_platform_go.Group.{GroupInvite, GroupMember, GroupMemberToken, Tables}
use a2a_platform_go.Group.Invites.Admit.{admit-Keeps}
use a2a_platform_go.Group.Invites.{
  selected, use_once, consume_row, consume, admit, join_body, consume_and_create_member_token,
  consumable,
}

-- How many more uses the invites with the identifier `id` allow.
abbrev pub spare : ℕ → List GroupInvite → ℕ
spare id [] = 0
spare id (i ∷ is) = (if id =? i.id then i.max_uses - i.used_count else 0) + spare id is

-- The invites with this identifier have a limit.
abbrev pub IsLimited : ℕ → GroupInvite → Type 0
IsLimited id i = id =? i.id ≡ true → 0 < i.max_uses

module _ (id now : ℕ) (env : Env) where
  used_le :
      (is : List GroupInvite) → spare id (update (selected id env now) use_once is) ≤ spare id is
  unfolding update consumable
  used_le [] = omega arith
  used_le (i ∷ is) = ground (arith, used_le is)

  used_lt :
      (is : List GroupInvite)
      → All (IsLimited id) is
      → is_some (find (selected id env now) is) ≡ true
      → spare id (update (selected id env now) use_once is) < spare id is
  unfolding update find consumable
  used_lt [] h found = cc
  used_lt (i ∷ is) (here, h) found = ground (arith, here, used_lt is h, used_le is)

  used-IsLimited :
      (is : List GroupInvite)
      → All (IsLimited id) is
      → All (IsLimited id) (update (selected id env now) use_once is)
  used-IsLimited is h =
      All-update (IsLimited id) (IsLimited id) (selected id env now) use_once is
        (λ i hit limited. limited) (λ i missed limited. limited) h

abbrev Joined : Type 0
Joined = GroupMember × List GroupMember × String

-- A request to join, at an instant.
pub record Attempt : Type 0 where
  pub instant : ℕ
  pub member : GroupMember
  pub token : GroupMemberToken

abbrev pub attempt : ℕ → Attempt → Env → World Tables → Result Joined × World Tables
attempt id a env w =
    consume_and_create_member_token id a.member a.token env (record w { now = a.instant })

abbrev count_ok : Result Joined → ℕ
count_ok (ok _) = 1
count_ok (err e) = 0

-- How many of the requests succeed, one after the other.
unfoldable pub successes : ℕ → List Attempt → Env → World Tables → ℕ
unfolding consume_and_create_member_token
successes id [] env w = 0
successes id (a ∷ rs) env w =
    let (r, w') = attempt id a env w in count_ok r + successes id rs env w'

module _ (id : ℕ) (env : Env) where
  abbrev AllLimited : World Tables → Type 0
  AllLimited w = All (IsLimited id) w.tables.invites

  -- What a successful consumption leaves.
  consume_ok :
      (w : World Tables) {u : Unit {0}}
      → (consume id env w).0 ≡ ok u
      → (is_some (find (selected id env w.now) w.tables.invites) ≡ true)
        × ((consume id env w).1.tables.invites
            ≡ update (selected id env w.now) use_once w.tables.invites)
  unfolding consume consume_row
  consume_ok w h =
      let (r, left) = statement_ok (consume_row id) env w h in
      (ground arith, ap (λ (t : Tables). t.invites) left)

  body_ok :
      (member : GroupMember) (token : GroupMemberToken) (w : World Tables) {j : Joined}
      → (join_body id member token env w).0 ≡ ok j
      → (is_some (find (selected id env w.now) w.tables.invites) ≡ true)
        × ((join_body id member token env w).1.tables.invites
            ≡ update (selected id env w.now) use_once w.tables.invites)
  unfolding join_body
  body_ok member token w h =
      let (u, used, _, whole) = bind_ok (consume id) (λ _. admit member token) env w h in
      let (found, left) = consume_ok w used in
      let w' = (consume id env w).1 in
      let P : Env → Tables → Type 0 = λ _ t. t.invites ≡ w'.tables.invites in
      let kept : (admit member token env w').1.tables.invites ≡ w'.tables.invites =
        (admit-Keeps P (λ env t u same e. sym same ∙ e) member token).at env w' refl in
      (found, ap (λ (p : Result Joined × World Tables). p.1.tables.invites) whole ∙ kept ∙ left)

  -- What the body leaves where it succeeds, at the instant of the request.
  body-spare :
      (a : Attempt) (w : World Tables) (tables : Tables) {j : Joined}
      → All (IsLimited id) w.tables.invites
      → (join_body id a.member a.token env (begin env (record w { now = a.instant }))).0 ≡ ok j
      → tables
        ≡ (join_body id a.member a.token env (begin env (record w { now = a.instant }))).1.tables
      → All (IsLimited id) tables.invites × (spare id tables.invites < spare id w.tables.invites)
  body-spare a w tables h body left =
      let w' = record w { now = a.instant } in
      let v = begin env w' in
      let (found, used) = body_ok a.member a.token v body in
      let from : v.tables.invites ≡ w.tables.invites =
        ap (λ (t : Tables). t.invites) (begin_same env w') in
      let found' = rw from at found in
      let to : tables.invites ≡ update (selected id env v.now) use_once w.tables.invites =
        ap (λ (t : Tables). t.invites) left
        ∙ used
        ∙ ap (update (selected id env v.now) use_once) from in
      rw to (
        used-IsLimited id v.now env w.tables.invites h,
        used_lt id v.now env w.tables.invites h found',
      )

  attempt_ok :
      (a : Attempt) (w : World Tables) {j : Joined}
      → All (IsLimited id) w.tables.invites
      → (attempt id a env w).0 ≡ ok j
      → All (IsLimited id) (attempt id a env w).1.tables.invites
        × (spare id (attempt id a env w).1.tables.invites < spare id w.tables.invites)
  unfolding consume_and_create_member_token
  attempt_ok a w h done =
      let (body, left) =
        transaction_ok (join_body id a.member a.token) env (record w { now = a.instant }) done in
      body-spare a w (attempt id a env w).1.tables h body left

  -- An error may hide that the server has committed: then a use is gone without a success.
  attempt_err :
      (a : Attempt) (w : World Tables) {e : Error}
      → All (IsLimited id) w.tables.invites
      → (attempt id a env w).0 ≡ err e
      → All (IsLimited id) (attempt id a env w).1.tables.invites
        × (spare id (attempt id a env w).1.tables.invites ≤ spare id w.tables.invites)
  unfolding consume_and_create_member_token
  attempt_err a w h failed =
      let left = (attempt id a env w).1.tables in
      elim (transaction_err (join_body id a.member a.token) env (record w { now = a.instant })
        failed) [
          | inl same ↦
              let back : left.invites ≡ w.tables.invites = ap (λ (t : Tables). t.invites) same in
              rw back (h, omega arith)
          | inr (joined, body, kept) ↦
              let (limited, fewer) = body-spare a w left h body kept in
              (limited, omega (arith, fewer))
        ]

  successes_step :
      (a : Attempt) (rs : List Attempt) (w : World Tables)
      → All (IsLimited id) w.tables.invites
      → ((v : World Tables)
          → All (IsLimited id) v.tables.invites
          → successes id rs env v ≤ spare id v.tables.invites)
      → (p : Result Joined × World Tables) → attempt id a env w ≡ p
      → count_ok p.0 + successes id rs env p.1 ≤ spare id w.tables.invites
  successes_step a rs w h later (ok j, v) e =
      let (limited, fewer) = attempt_ok a w h (ap (λ q. q.0) e) in
      omega (arith, later v (rw e at limited), rw e at fewer)
  successes_step a rs w h later (err f, v) e =
      let (limited, fewer) = attempt_err a w h (ap (λ q. q.0) e) in
      omega (arith, later v (rw e at limited), rw e at fewer)

  -- Of any sequence of requests to join by an invite with a limit, at most as many succeed as the
  -- invite still allowed uses.
  pub successes_le :
      (rs : List Attempt) (w : World Tables)
      → All (IsLimited id) w.tables.invites
      → successes id rs env w ≤ spare id w.tables.invites
  unfolding successes
  successes_le [] w h = omega arith
  successes_le (a ∷ rs) w h =
      successes_step a rs w h (λ v limited. successes_le rs v limited) _ refl
