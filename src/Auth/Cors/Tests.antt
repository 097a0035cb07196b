-- ===== src/Auth/Cors/Tests.antt =====
-- corsMiddleware on concrete requests.
use a2a_platform_go.Prelude.{String, ◌≡◌, refl, true, false, [], ◌∷◌, some, find, delete, any}
use a2a_platform_go.Prelude.Text.{trim_space, split}
use a2a_platform_go.Auth.{Request, get_header}
use a2a_platform_go.Auth.Cors.{CorsConfig, allowed_cors_origin, cors_middleware}
use a2a_platform_go.Auth.Cors.Grants.{Grant, cors_middleware-Grant}

abbrev config : CorsConfig
config = record { cors_origins = "https://console" ∷ []; admin_token = "root" }

abbrev page : String → Request
page method = record {
  method = method;
  path = "/api/groups";
  headers =
      ("Origin", "https://page")
      ∷ ("X-Admin-Token", "root")
      ∷ ("Access-Control-Request-Headers", "content-type, x-admin-token")
      ∷ [];
}

abbrev stranger : String → Request
stranger method = record {
  method = method;
  path = "/api/groups";
  headers =
      ("Origin", "https://page")
      ∷ ("Access-Control-Request-Headers", "content-type, x-admin-token")
      ∷ [];
}

-- Before it sends the token, a page may ask whether it may.
preflight_allowed : allowed_cors_origin (λ s. s) (stranger "OPTIONS") (some config) ≡ "https://page"
unfolding allowed_cors_origin find a2a_platform_go.Prelude.Text.cut_prefix
preflight_allowed = refl

stranger_not_allowed : allowed_cors_origin (λ s. s) (stranger "GET") (some config) ≡ ""
unfolding allowed_cors_origin find a2a_platform_go.Prelude.Text.cut_prefix
stranger_not_allowed = refl

cors_middleware-Grant_example : Grant config (page "GET") "https://page" "https://page"
unfolding cors_middleware get_header find delete
cors_middleware-Grant_example = cors_middleware-Grant (λ s. s) config (page "GET") refl refl
