-- ===== src/Auth/Cors/Grants.antt =====
-- corsMiddleware: why a page may read a response.
use a2a_platform_go.Prelude.{
  String, Bool, ◌≡◌, refl, sym, ◌∙◌, ap, true, false, Option, none, some, List, [], ◌∷◌, ◌==◌, ◌⊎◌,
  inl, inr, Bool-cases, any, eq_iff, find,
}
use a2a_platform_go.Auth.{Request, get_header, set_header, is_admin_request}
use a2a_platform_go.Auth.Headers.{get-set, get-set_apart}
use a2a_platform_go.Auth.Cors.{
  CorsConfig, origin_in, or_by_token, allowed_cors_origin, with_origin, cors_middleware,
}

abbrev is_origin : String → String → Bool
is_origin origin allowed = allowed == origin

-- Why an answer to the origin `origin` lets `granted` read it.
pub data Grant (cfg : CorsConfig) (r : Request) (origin granted : String) : Type 0 where
  everyone :
      any (is_origin "*") cfg.cors_origins ≡ true → granted ≡ "*" → Grant cfg r origin granted
  listed :
      any (is_origin origin) cfg.cors_origins ≡ true → granted ≡ origin → Grant cfg r origin granted
  administrator :
      is_admin_request cfg.admin_token r.headers ≡ true
      → granted ≡ origin
      → Grant cfg r origin granted

abbrev InList : String → String → List String → Type 0
InList origin granted allowed =
    ((any (is_origin "*") allowed ≡ true) × (granted ≡ "*"))
    ⊎ ((any (is_origin origin) allowed ≡ true) × (granted ≡ origin))

origin_in-InList :
    (origin granted : String) (allowed : List String)
    → origin_in origin allowed ≡ some granted
    → InList origin granted allowed
unfolding origin_in any
origin_in-InList origin granted [] h = cc
origin_in-InList origin granted (a ∷ rest) h = elim (Bool-cases (a == "*")) [
  | inl star ↦ inl (rw star refl, let e : some "*" ≡ some granted = rw star at h in cc)
  | inr plain ↦ elim (Bool-cases (a == origin)) [
    | inl same ↦
        inr (rw same refl, let e : some origin ≡ some granted = rw (plain, same) at h in cc)
    | inr other ↦ rw (plain, other) (origin_in-InList origin granted rest (rw (plain, other) at h))
  ]
]

abbrev allow_origin : String
allow_origin = "Access-Control-Allow-Origin"

get-with_origin : (granted : String) → get_header allow_origin (with_origin granted []) ≡ granted
unfolding get_header find
get-with_origin granted = elim (Bool-cases (granted == "")) [
  | inl none_granted ↦ rw none_granted (sym ((eq_iff granted "").0 none_granted))
  | inr some_granted ↦ rw some_granted (get-set allow_origin granted [])
]

-- What the response's own header says.
cors_middleware-granted :
    (lower : String → String) (cfg : Option CorsConfig) (r : Request)
    → get_header allow_origin (cors_middleware lower cfg r []).0 ≡ allowed_cors_origin lower r cfg
unfolding cors_middleware
cors_middleware-granted lower cfg r =
    let text : String = "GET, POST, PUT, DELETE, OPTIONS" in
    let h1 = with_origin (allowed_cors_origin lower r cfg) [] in
    get-set_apart allow_origin "Access-Control-Allow-Headers" refl
      "Content-Type, A2A-Version, Authorization, X-Admin-Token, X-Group-Member-Token"
      (set_header "Access-Control-Allow-Methods" text h1) refl
    ∙ get-set_apart allow_origin "Access-Control-Allow-Methods" refl text h1 refl
    ∙ get-with_origin (allowed_cors_origin lower r cfg)

module _ (cfg : CorsConfig) (r : Request) where
  abbrev origin : String
  origin = get_header "Origin" r.headers

  by_token :
      (lower : String → String) (found : Option String) (granted : String)
      → r.method == "OPTIONS" ≡ false
      → granted == "" ≡ false
      → origin_in origin cfg.cors_origins ≡ found
      → or_by_token lower cfg r origin found ≡ granted
      → Grant cfg r origin granted
  unfolding is_admin_request
  by_token lower (some g) granted actual there e h =
      elim (origin_in-InList origin granted cfg.cors_origins (e ∙ ap some h)) [
        | inl (any_origin, star) ↦ everyone any_origin star
        | inr (this, same) ↦ listed this same
      ]
  by_token lower none granted actual there e h =
      elim (Bool-cases (is_admin_request cfg.admin_token r.headers)) [
        | inl admin ↦ administrator admin (sym (rw admin at h))
        | inr other ↦
            let e : "" ≡ granted = rw (other, actual) at h in
            let impossible : true ≡ false = ap (λ g. g == "") e ∙ there in cc
      ]

  granted_by :
      (lower : String → String) (granted : String)
      → r.method == "OPTIONS" ≡ false
      → granted == "" ≡ false
      → allowed_cors_origin lower r (some cfg) ≡ granted
      → Grant cfg r origin granted
  unfolding allowed_cors_origin
  granted_by lower granted actual there h = elim (Bool-cases (origin == "")) [
    | inl missing ↦
        let e : "" ≡ granted = rw missing at h in
        let impossible : true ≡ false = ap (λ g. g == "") e ∙ there in cc
    | inr present ↦
        by_token lower (origin_in origin cfg.cors_origins) granted actual there refl
          (rw present at h)
  ]

-- Where corsMiddleware has a configuration, the request's method is not OPTIONS and the response has
-- no header yet, what corsMiddleware has set for Access-Control-Allow-Origin when it hands the
-- request on is nothing; or it is "*", and "*" is among the configured origins; or it is the
-- request's Origin, which is among the configured origins or whose request carries the
-- administrator's token. Handlers behind it may set the header again.
pub cors_middleware-Grant :
    (lower : String → String) (cfg : CorsConfig) (r : Request)
    → r.method == "OPTIONS" ≡ false
    → get_header "Access-Control-Allow-Origin" (cors_middleware lower (some cfg) r []).0 == ""
      ≡ false
    → Grant cfg r
        (get_header "Origin" r.headers)
        (get_header "Access-Control-Allow-Origin" (cors_middleware lower (some cfg) r []).0)
cors_middleware-Grant lower cfg r actual there =
    granted_by cfg r lower (get_header allow_origin (cors_middleware lower (some cfg) r []).0)
      actual there (sym (cors_middleware-granted lower (some cfg) r))
