-- ===== src/Auth/Headers.antt =====
-- http.Header: what is read after a header is set or deleted.
use a2a_platform_go.Prelude.{
  String, ◌≡◌, refl, ◌∙◌, ap, true, false, ◌==◌, find, delete, eq_iff, eq_refl,
}
use a2a_platform_go.Prelude.Tables.{find-delete-none, find-delete_apart}
use a2a_platform_go.Auth.{
  Headers, is_named, get_header, set_header, clear_auth_principal_headers, auth_principal_header,
  auth_group_id_header, auth_actor_type_header, auth_actor_id_header, value_or_empty, mark_member,
}
use a2a_platform_go.Group.{GroupMemberToken}

named_apart :
    (a b : String)
    → a == b ≡ false
    → (h : String × String) → is_named a h ≡ true
    → is_named b h ≡ false
named_apart a b apart h hit = let same : h.0 ≡ a = (eq_iff h.0 a).0 hit in rw same apart

module _ (a b : String) (apart : a == b ≡ false) where
  get-delete_apart :
      (headers : Headers) → get_header a (delete (is_named b) headers) ≡ get_header a headers
  unfolding get_header
  get-delete_apart headers =
      ap value_or_empty
        (find-delete_apart (is_named a) (is_named b) (named_apart a b apart) headers)

  pub get-set_apart :
      (value : String) (headers : Headers)
      → b == a ≡ false
      → get_header a (set_header b value headers) ≡ get_header a headers
  unfolding get_header set_header find
  get-set_apart value headers back = rw back (get-delete_apart headers)

get-delete : (a : String) (headers : Headers) → get_header a (delete (is_named a) headers) ≡ ""
unfolding get_header
get-delete a headers =
    ap value_or_empty (find-delete-none (is_named a) (is_named a) (λ x hit. hit) headers)

pub get-set :
    (a value : String) (headers : Headers) → get_header a (set_header a value headers) ≡ value
unfolding get_header set_header find
get-set a value headers = rw (eq_refl a)

-- What the handlers read of the caller.
abbrev pub principal : Headers → String × String × String × String
principal headers = (
  get_header auth_principal_header headers,
  get_header auth_group_id_header headers,
  get_header auth_actor_type_header headers,
  get_header auth_actor_id_header headers,
)

pub principal-clear :
    (headers : Headers) → principal (clear_auth_principal_headers headers) ≡ ("", "", "", "")
unfolding clear_auth_principal_headers
principal-clear h =
    let d1 = delete (is_named auth_principal_header) h in
    let d2 = delete (is_named auth_group_id_header) d1 in
    let d3 = delete (is_named auth_actor_type_header) d2 in
    let id = auth_actor_id_header in
    rw
      (
        get-delete id d3,
        get-delete_apart auth_actor_type_header id refl d3,
        get-delete_apart auth_group_id_header id refl d3,
        get-delete_apart auth_principal_header id refl d3,
        get-delete auth_actor_type_header d2,
        get-delete_apart auth_group_id_header auth_actor_type_header refl d2,
        get-delete_apart auth_principal_header auth_actor_type_header refl d2,
        get-delete auth_group_id_header d1,
        get-delete_apart auth_principal_header auth_group_id_header refl d1,
        get-delete auth_principal_header h,
      )
      refl

pub get-clear :
    (name : String) (headers : Headers)
    → name == auth_principal_header ≡ false
    → name == auth_group_id_header ≡ false
    → name == auth_actor_type_header ≡ false
    → name == auth_actor_id_header ≡ false
    → get_header name (clear_auth_principal_headers headers) ≡ get_header name headers
unfolding clear_auth_principal_headers
get-clear name h p g t i =
    get-delete_apart name _ i _
    ∙ get-delete_apart name _ t _
    ∙ get-delete_apart name _ g _
    ∙ get-delete_apart name _ p h

pub principal-admin :
    (headers : Headers)
    → principal headers ≡ ("", "", "", "")
    → principal (set_header auth_principal_header "admin" headers) ≡ ("admin", "", "", "")
principal-admin h e =
    let p = auth_principal_header in
    rw
      (
        get-set p "admin" h,
        get-set_apart auth_group_id_header p refl "admin" h refl,
        get-set_apart auth_actor_type_header p refl "admin" h refl,
        get-set_apart auth_actor_id_header p refl "admin" h refl,
      )
      cc

pub principal-mark :
    (t : GroupMemberToken) (headers : Headers)
    → principal (mark_member t headers) ≡ ("member", t.group_id, t.actor_type, t.actor_id)
unfolding mark_member
principal-mark t h =
    let h1 = set_header auth_principal_header "member" h in
    let h2 = set_header auth_group_id_header t.group_id h1 in
    let h3 = set_header auth_actor_type_header t.actor_type h2 in
    let id = auth_actor_id_header in
    rw
      (
        get-set id t.actor_id h3,
        get-set_apart auth_actor_type_header id refl t.actor_id h3 refl,
        get-set_apart auth_group_id_header id refl t.actor_id h3 refl,
        get-set_apart auth_principal_header id refl t.actor_id h3 refl,
        get-set auth_actor_type_header t.actor_type h2,
        get-set_apart auth_group_id_header auth_actor_type_header refl t.actor_type h2 refl,
        get-set_apart auth_principal_header auth_actor_type_header refl t.actor_type h2 refl,
        get-set auth_group_id_header t.group_id h1,
        get-set_apart auth_principal_header auth_group_id_header refl t.group_id h1 refl,
        get-set auth_principal_header "member" h,
      )
      refl
