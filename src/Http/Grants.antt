-- ===== src/Http/Grants.antt =====
-- Whom `CORSMiddleware` (httpkit/middleware.go) grants access.
use gopher_core.Common.{◌≡◌, ◌||◌, List, String, Option, some, none, if◌then◌else◌, arith}
use gopher_core.Common.Dict.{same_key}
use gopher_core.Http.{Request, Handler, get_header, sent_header}
use gopher_core.Http.Layers.{listed, grants, cors_middleware, common}

-- The policy: who may read the response, none for nobody
unfoldable pub permitted : List String → Request → Option String
unfolding get_header
permitted origins r =
    if r.gone || same_key (get_header "Origin" r) ""
    then none
    else if listed "*" origins
    then some "*"
    else if listed (get_header "Origin" r) origins
    then some (get_header "Origin" r)
    else none

-- The policy: whether the browser may send credentials
unfoldable pub credentialed : List String → Request → Option String
unfolding get_header
credentialed origins r =
    if r.gone || same_key (get_header "Origin" r) "" || listed "*" origins
    then none
    else if listed (get_header "Origin" r) origins
    then some "true"
    else none

-- A handler that leaves a header as it is
abbrev pub Leaves : {S : Type 0} → String → Handler S → Type 0
Leaves {S} name h = (r : Request) (s : S) (v : Option String) → sent_header name v (h r s).0 ≡ v

module _ {S : Type 0} (origins methods headers : List String) (next : Handler S) (r : Request)
    (s : S) where
  -- Around a handler that leaves Access-Control-Allow-Origin as it is, the CORS middleware sends
  -- the header exactly as the policy says: "*" if the list has "*", the request's origin if the list has
  -- that, and otherwise nothing.
  pub allow_origin_sent :
      Leaves "Access-Control-Allow-Origin" next
      → sent_header "Access-Control-Allow-Origin" none
          (cors_middleware origins methods headers next r s).0
        ≡ permitted origins r
  unfolding cors_middleware permitted grants common sent_header
  allow_origin_sent leaves =
      ground
        (arith, leaves r s none, leaves r s (some "*"), leaves r s (some (get_header "Origin" r)))

  -- Around a handler that leaves Access-Control-Allow-Credentials as it is, credentials are allowed
  -- exactly to the origins on a list without "*".
  pub credentials_sent :
      Leaves "Access-Control-Allow-Credentials" next
      → sent_header "Access-Control-Allow-Credentials" none
          (cors_middleware origins methods headers next r s).0
        ≡ credentialed origins r
  unfolding cors_middleware credentialed grants common sent_header
  credentials_sent leaves = ground (arith, leaves r s none, leaves r s (some "true"))
