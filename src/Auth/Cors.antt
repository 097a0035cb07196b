-- ===== src/Auth/Cors.antt =====
-- cmd/server/main.go, corsMiddleware: which origins' pages may read a response. `lower` is
-- strings.ToLower.
pub mod Grants
mod Tests
use a2a_platform_go.Prelude.{
  String, Bool, true, false, ◌&&◌, ◌||◌, not, Option, none, some, List, [], ◌∷◌, ◌==◌,
  if◌then◌else◌, any,
}
use a2a_platform_go.Prelude.Text.{trim_space, split}
use a2a_platform_go.Auth.{Headers, Request, get_header, set_header, is_named, token_from_request}

-- What config.Config says of it.
pub record CorsConfig : Type 0 where
  pub cors_origins : List String
  pub admin_token : String

-- The answer that the loop over the configured origins returns, if it returns one.
unfoldable pub origin_in : String → List String → Option String
origin_in origin [] = none
origin_in origin (allowed ∷ rest) =
    let later = origin_in origin rest in
    if allowed == "*" then some "*" else if allowed == origin then some origin else later

-- What comes after the headers are set: the status 204, or next.ServeHTTP.
pub data Passed : Type 0 where
  no_content : Passed
  served : Request → Passed

abbrev pub with_origin : String → Headers → Headers
with_origin origin headers =
    if origin == "" then headers else set_header "Access-Control-Allow-Origin" origin headers

module _ (lower : String → String) where
  abbrev pub asks_for_token : String → Bool
  asks_for_token header =
      let normalized = lower (trim_space header) in
      normalized == "x-admin-token" || normalized == "authorization"

  -- preflightRequestsAdminToken
  unfoldable pub preflight_requests_admin_token : Request → Bool
  unfolding get_header split any trim_space
  preflight_requests_admin_token r =
      any asks_for_token (split 44 (get_header "Access-Control-Request-Headers" r.headers))

  abbrev pub or_by_token : CorsConfig → Request → String → Option String → String
  or_by_token cfg r origin (some granted) = granted
  or_by_token cfg r origin none =
      if not (cfg.admin_token == "") && token_from_request r.headers == cfg.admin_token
      then origin
      else if r.method == "OPTIONS" && preflight_requests_admin_token r
      then origin
      else ""

  -- allowedCorsOrigin
  unfoldable pub allowed_cors_origin : Request → Option CorsConfig → String
  unfolding get_header origin_in preflight_requests_admin_token token_from_request
  allowed_cors_origin r none = ""
  allowed_cors_origin r (some cfg) =
      let origin = get_header "Origin" r.headers in
      if origin == "" then "" else or_by_token cfg r origin (origin_in origin cfg.cors_origins)

  -- corsMiddleware, from the headers that the response has so far
  unfoldable pub cors_middleware : Option CorsConfig → Request → Headers → Headers × Passed
  unfolding allowed_cors_origin set_header
  cors_middleware cfg r headers = (
    set_header "Access-Control-Allow-Headers"
        "Content-Type, A2A-Version, Authorization, X-Admin-Token, X-Group-Member-Token"
        (set_header "Access-Control-Allow-Methods" "GET, POST, PUT, DELETE, OPTIONS"
          (with_origin (allowed_cors_origin r cfg) headers)),
    if r.method == "OPTIONS" then no_content else served r,
  )
