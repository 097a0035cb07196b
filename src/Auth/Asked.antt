-- ===== src/Auth/Asked.antt =====
-- cmd/server/main.go: what only the administrator, or only a member of a group, may ask for, said
-- without requiresAdmin and scopedGroupID.
use a2a_platform_go.Prelude.{
  String, Bool, true, false, ◌&&◌, ◌||◌, not, some, List, [], ◌∷◌, ◌==◌, ◌≡◌, refl, sym, ◌∙◌, ap,
  arith, eq_iff, any, Bool-cases, inl, inr, if◌then◌else◌,
}
use a2a_platform_go.Prelude.Text.{has_prefix, has_suffix, split}
use a2a_platform_go.Auth.{Request}
use a2a_platform_go.Auth.Paths.{
  requires_admin, scoped_group_id, path_tail, is_group_member_delete, group_requires_admin,
  is_member_path,
}

-- The paths of which all that begin with one of them are for the administrator.
abbrev pub admin_sections : List String
admin_sections =
    "/api/agents" ∷ "/api/builtin-agents" ∷ "/api/tasks" ∷ "/api/traces" ∷ "/api/contexts"
    ∷ "/api/subagents" ∷ []

abbrev pub admin_pages : List String
admin_pages = "/api/stats" ∷ "/api/events" ∷ "/api/humans" ∷ []

abbrev pub open_human_pages : List String
open_human_pages = "/api/humans/register" ∷ "/api/humans/login" ∷ "/api/humans/me" ∷ []

-- A path is taken apart behind "/api/groups/", without the slashes at its end.
abbrev pub group_parts : Request → List String
group_parts r = split b'/' (path_tail r.path "/api/groups/")

abbrev pub is_in_groups : Request → Bool
is_in_groups r = has_prefix r.path "/api/groups/"

-- What only the administrator may ask for.
pub data IsForAdmin (r : Request) : Type 0 where
  section : any (has_prefix r.path) admin_sections ≡ true → IsForAdmin r
  page : any (λ p. r.path == p) admin_pages ≡ true → IsForAdmin r
  human :
      has_prefix r.path "/api/humans/" ≡ true
      → any (λ p. r.path == p) open_human_pages ≡ false
      → IsForAdmin r
  new_group : r.method ≡ "POST" → r.path ≡ "/api/groups" → IsForAdmin r
  changed_group : r.method ≡ "PUT" → is_in_groups r ≡ true → IsForAdmin r
  deleted_group :
      (group : String)
      → r.method ≡ "DELETE"
      → is_in_groups r ≡ true
      → group_parts r ≡ group ∷ []
      → IsForAdmin r
  new_member :
      r.method ≡ "POST" → is_in_groups r ≡ true → has_suffix r.path "/members" ≡ true → IsForAdmin r
  -- without a slash at the end
  invite :
      r.method == "DELETE" ≡ false
      → is_in_groups r ≡ true
      → has_suffix r.path "/invites" ≡ true
      → IsForAdmin r
  join :
      r.method == "DELETE" ≡ false
      → is_in_groups r ≡ true
      → has_suffix r.path "/join" ≡ true
      → IsForAdmin r

pages :
    (s e h hu ng gr : Bool)
    → (s || (e || (h || false))) ≡ true
    → (s || e || h || hu || ng || gr) ≡ true
pages true e h hu ng gr k = refl
pages false true h hu ng gr k = refl
pages false false true hu ng gr k = refl
pages false false false hu ng gr k = cc

humans : (s e h hu ng gr : Bool) → hu ≡ true → (s || e || h || hu || ng || gr) ≡ true
humans s e h hu ng gr k = ground (arith, k)

last : (s e h hu ng gr : Bool) → gr ≡ true → (s || e || h || hu || ng || gr) ≡ true
last s e h hu ng gr k = ground (arith, k)

third : (a b c i : Bool) → i ≡ true → (a || b || i || c) ≡ true
third a b c i k = ground (arith, k)

fourth : (a b c j : Bool) → j ≡ true → (a || b || c || j) ≡ true
fourth a b c j k = ground (arith, k)

section_of :
    (a b s h hu t tr c su e ng gr : Bool)
    → (a || (b || (t || (tr || (c || (su || false)))))) ≡ true
    → (a || b || s || h || hu || t || tr || c || su || e || ng || gr) ≡ true
section_of true b s h hu t tr c su e ng gr k = refl
section_of false true s h hu t tr c su e ng gr k = refl
section_of false false true h hu t tr c su e ng gr k = refl
section_of false false false true hu t tr c su e ng gr k = refl
section_of false false false false true t tr c su e ng gr k = refl
section_of false false false false false true tr c su e ng gr k = refl
section_of false false false false false false true c su e ng gr k = refl
section_of false false false false false false false true su e ng gr k = refl
section_of false false false false false false false false true e ng gr k = refl
section_of false false false false false false false false false e ng gr k = cc

any_of :
    (a b s h hu t tr c su e ng gr : Bool)
    → (s || e || h || hu || ng || gr) ≡ true
    → (a || b || s || h || hu || t || tr || c || su || e || ng || gr) ≡ true
any_of true b s h hu t tr c su e ng gr k = refl
any_of false true s h hu t tr c su e ng gr k = refl
any_of false false true h hu t tr c su e ng gr k = refl
any_of false false false true hu t tr c su e ng gr k = refl
any_of false false false false true t tr c su e ng gr k = refl
any_of false false false false false true tr c su e ng gr k = refl
any_of false false false false false false true c su e ng gr k = refl
any_of false false false false false false false true su e ng gr k = refl
any_of false false false false false false false false true e ng gr k = refl
any_of false false false false false false false false false true ng gr k = refl
any_of false false false false false false false false false false ng gr k = k

-- `inside` and `other` say together whether the path is one of a member.
group_of :
    (put deletes inside other post members invites joins : Bool)
    → (put || (post && members) || invites || joins) ≡ true
    → deletes ≡ false
    → (if deletes && inside && other
        then false
        else put || deletes || (members && post) || invites || joins)
      ≡ true
group_of put deletes inside other post members invites joins k d = ground (arith, k, d)

human_of :
    (under a b c : Bool)
    → under ≡ true
    → (a || (b || (c || false))) ≡ false
    → (under && not a && not b && not c) ≡ true
human_of under a b c h k = ground (arith, h, k)

module _ (r : Request) where
  abbrev under : String → Bool
  under p = has_prefix r.path p

  abbrev is_human : Bool
  is_human =
      under "/api/humans/"
      && not (r.path == "/api/humans/register")
      && not (r.path == "/api/humans/login")
      && not (r.path == "/api/humans/me")

  abbrev is_new : Bool
  is_new = r.method == "POST" && r.path == "/api/groups"

  abbrev in_groups : Bool
  in_groups = under "/api/groups/" && group_requires_admin r.path r.method

  other-requires :
      (r.path == "/api/stats"
          || r.path == "/api/events"
          || r.path == "/api/humans"
          || is_human
          || is_new
          || in_groups)
        ≡ true
      → requires_admin r.path r.method ≡ true
  unfolding requires_admin
  other-requires k =
      any_of (under "/api/agents") (under "/api/builtin-agents") (r.path == "/api/stats")
        (r.path == "/api/humans") is_human (under "/api/tasks") (under "/api/traces")
        (under "/api/contexts") (under "/api/subagents") (r.path == "/api/events") is_new in_groups
        k

  groups-requires :
      under "/api/groups/" ≡ true
      → group_requires_admin r.path r.method ≡ true
      → requires_admin r.path r.method ≡ true
  groups-requires h k = other-requires (
      last (r.path == "/api/stats") (r.path == "/api/events") (r.path == "/api/humans") is_human
        is_new in_groups (rw (h, k) refl))

  ends-requires :
      under "/api/groups/" ≡ true
      → (r.method == "PUT"
          || (r.method == "POST" && has_suffix r.path "/members")
          || has_suffix r.path "/invites"
          || has_suffix r.path "/join")
        ≡ true
      → r.method == "DELETE" ≡ false
      → requires_admin r.path r.method ≡ true
  unfolding is_group_member_delete
  ends-requires h k d = groups-requires h (
      group_of (r.method == "PUT") (r.method == "DELETE") (under "/api/groups/")
        (is_member_path (group_parts r)) (r.method == "POST") (has_suffix r.path "/members")
        (has_suffix r.path "/invites") (has_suffix r.path "/join") k d)

  pub IsForAdmin-requires : IsForAdmin r → requires_admin r.path r.method ≡ true
  unfolding requires_admin any is_group_member_delete
  IsForAdmin-requires (section h) =
      section_of (under "/api/agents") (under "/api/builtin-agents") (r.path == "/api/stats")
        (r.path == "/api/humans") is_human (under "/api/tasks") (under "/api/traces")
        (under "/api/contexts") (under "/api/subagents") (r.path == "/api/events") is_new in_groups
        h
  IsForAdmin-requires (page h) = other-requires (
      pages (r.path == "/api/stats") (r.path == "/api/events") (r.path == "/api/humans") is_human
        is_new in_groups h)
  IsForAdmin-requires (human h k) = other-requires (
      humans (r.path == "/api/stats") (r.path == "/api/events") (r.path == "/api/humans") is_human
        is_new in_groups
        (human_of (under "/api/humans/") (r.path == "/api/humans/register")
          (r.path == "/api/humans/login") (r.path == "/api/humans/me") h k))
  IsForAdmin-requires (new_group m p) = rw (m, p) refl
  IsForAdmin-requires (changed_group m h) = ends-requires h (rw m refl) (rw m refl)
  IsForAdmin-requires (deleted_group g m h k) = groups-requires h (rw (m, k) (ground arith))
  IsForAdmin-requires (new_member m h k) = ends-requires h (rw (m, k) refl) (rw m refl)
  IsForAdmin-requires (invite d h k) =
      ends-requires h
        (third (r.method == "PUT") (r.method == "POST" && has_suffix r.path "/members")
          (has_suffix r.path "/join") (has_suffix r.path "/invites") k)
        d
  IsForAdmin-requires (join d h k) =
      ends-requires h
        (fourth (r.method == "PUT") (r.method == "POST" && has_suffix r.path "/members")
          (has_suffix r.path "/invites") (has_suffix r.path "/join") k)
        d

-- What only members of the group `g` may ask for.
pub data IsInGroup (r : Request) (g : String) : Type 0 where
  -- GET of the group itself
  read_group : r.method ≡ "GET" → group_parts r ≡ g ∷ [] → IsInGroup r g
  -- its members, messages, documents and state
  part :
      (name : String) (rest : List String)
      → group_parts r ≡ g ∷ name ∷ rest
      → any (λ p. name == p) ("members" ∷ "events" ∷ "artifacts" ∷ "orchestration" ∷ []) ≡ true
      → IsInGroup r g

abbrev head : List String → String
head [] = ""
head (s ∷ rest) = s

four_of : (a b c d : Bool) → (a || (b || (c || (d || false)))) ≡ true → (a || b || c || d) ≡ true
four_of a b c d h = ground (arith, h)

four :
    (name : String)
    → any (λ p. name == p) ("members" ∷ "events" ∷ "artifacts" ∷ "orchestration" ∷ []) ≡ true
    → (name == "members" || name == "events" || name == "artifacts" || name == "orchestration")
      ≡ true
unfolding any
four name h =
    four_of (name == "members") (name == "events") (name == "artifacts") (name == "orchestration") h

module _ (r : Request) (g : String) (inside : is_in_groups r ≡ true) (named : g == "" ≡ false) where
  not_all : r.path == "/api/groups" ≡ false
  unfolding has_prefix
  not_all = elim (Bool-cases (r.path == "/api/groups")) [
    | inl same ↦
        let impossible : false ≡ true =
          ap (λ p. has_prefix p "/api/groups/") (sym ((eq_iff r.path "/api/groups").0 same))
          ∙ inside in
        cc
    | inr other ↦ other
  ]

  -- What is behind "/api/groups/" is not empty: it names a group.
  tail_named :
      (name : String) (rest : List String)
      → group_parts r ≡ name ∷ rest
      → name == "" ≡ false
      → path_tail r.path "/api/groups/" == "" ≡ false
  unfolding split
  tail_named name rest k named = elim (Bool-cases (path_tail r.path "/api/groups/" == "")) [
    | inl none_left ↦
        let e : path_tail r.path "/api/groups/" ≡ "" =
          (eq_iff (path_tail r.path "/api/groups/") "").0 none_left in
        let parts : ("" ∷ []) ≡ (name ∷ rest) = ap (λ t. split b'/' t) (sym e) ∙ k in
        let same : "" ≡ name = ap (λ l. head l) parts in
        let impossible : true ≡ false = ap (λ n. n == "") same ∙ named in cc
    | inr some_left ↦ some_left
  ]

  pub IsInGroup-scoped : IsInGroup r g → scoped_group_id r.path r.method ≡ some g
  unfolding scoped_group_id any
  IsInGroup-scoped (read_group m k) = rw (not_all, inside, tail_named g [] k named, k, m) refl
  IsInGroup-scoped (part name rest k h) =
      rw (not_all, inside, tail_named g (name ∷ rest) k named, k, four name h) refl
