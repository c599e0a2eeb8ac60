-- ===== src/Http/Layers.antt =====
-- The middlewares of httpkit/middleware.go.
use Prim.Native.String.{◌++◌ as str_append}
use gopher_core.Common.{
  Bool, true, false, not, ◌&&◌, ◌||◌, List, [], ◌∷◌, String, Option, some, none, if◌then◌else◌,
}
use gopher_core.Common.Dict.{same_key}
use gopher_core.Http.{Request, Write, set_header, write_header, write, Handler, get_header, before}

-- The headers of `SecurityHeadersMiddleware`
abbrev pub security_headers : List Write
security_headers =
    set_header "Strict-Transport-Security" "max-age=63072000; includeSubDomains; preload"
    ∷ set_header "X-Content-Type-Options" "nosniff"
    ∷ set_header "X-Frame-Options" "DENY"
    ∷ set_header "Referrer-Policy" "strict-origin-when-cross-origin"
    ∷ set_header "Permissions-Policy" "camera=(), microphone=(), geolocation=()"
    ∷ set_header "X-Xss-Protection" "1; mode=block"
    ∷ set_header "Content-Security-Policy" "default-src 'self'"
    ∷ []

-- A membership test, of a Go map from texts to `true`
unfoldable pub listed : String → List String → Bool
listed s [] = false
listed s (o ∷ os) = same_key o s || listed s os

-- `strings.Join`
unfoldable pub join_by : String → List String → String
join_by sep [] = ""
join_by sep (s ∷ []) = s
join_by sep (s ∷ t ∷ ss) = str_append s (str_append sep (join_by sep (t ∷ ss)))

-- The headers that every granted request gets
unfoldable pub common : List String → List String → List Write
common methods headers =
    set_header "Access-Control-Allow-Methods" (join_by ", " methods)
    ∷ set_header "Access-Control-Allow-Headers" (join_by ", " headers)
    ∷ set_header "Access-Control-Max-Age" "86400"
    ∷ []

-- The headers that `CORSMiddleware` sets for an origin
unfoldable pub grants : List String → List String → List String → String → List Write
unfolding listed common
grants origins methods headers origin =
    if not (same_key origin "") && (listed "*" origins || listed origin origins)
    then (if listed "*" origins
        then set_header "Access-Control-Allow-Origin" "*" ∷ common methods headers
        else set_header "Access-Control-Allow-Origin" origin
          ∷ set_header "Access-Control-Allow-Credentials" "true"
          ∷ set_header "Vary" "Origin"
          ∷ common methods headers)
    else []

-- The writes of a request that a limiter refuses
abbrev pub too_many_requests : List Write
too_many_requests =
    set_header "Retry-After" "1"
    ∷ set_header "Content-Type" "application/json; charset=utf-8"
    ∷ write_header 429
    ∷ write "{\"error\":\"Too Many Requests\",\"code\":429}"
    ∷ []

module _ {S : Type 0} where
  unfoldable pub security_headers_middleware : Handler S → Handler S
  security_headers_middleware next r s =
      if r.gone then (write_header 499 ∷ [], s) else before security_headers (next r s)

  -- What follows the call of `Allow`
  abbrev pub answer_allowed : Handler S → Request → Bool × S → List Write × S
  answer_allowed next r (true, s) = next r s
  answer_allowed next r (false, s) = (too_many_requests, s)

  -- `RateLimitMiddleware`, of a limiter that may be nil
  unfoldable pub rate_limit_middleware : Option (S → Bool × S) → Handler S → Handler S
  rate_limit_middleware none next r s = next r s
  rate_limit_middleware (some allow) next r s =
      if r.gone
      then (write_header 499 ∷ [], s)
      else if same_key r.path "/metrics"
      then next r s
      else answer_allowed next r (allow s)

  unfoldable pub cors_middleware : List String → List String → List String → Handler S → Handler S
  unfolding get_header grants
  cors_middleware origins methods headers next r s =
      if r.gone
      then (write_header 499 ∷ [], s)
      else before (grants origins methods headers (get_header "Origin" r))
          (if same_key r.method "OPTIONS" then (write_header 204 ∷ [], s) else next r s)
