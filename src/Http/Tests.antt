-- ===== src/Http/Tests.antt =====
-- Requests through a router of httpkit, and the theorems at concrete inputs.
use gopher_core.Common.{
  ℕ, suc, ◌≡◌, refl, Bool, true, false, Option, none, some, List, [], ◌∷◌, ◌++◌, String, zero,
}
use gopher_core.Http.{Request, write, Handler, sent_header, get_header}
use gopher_core.Http.Layers.{
  security_headers, too_many_requests, cors_middleware, listed, rate_limit_middleware,
  security_headers_middleware, grants, common, join_by,
}
use gopher_core.Common.Dict.{lookup}
use gopher_core.Http.Settings.{
  RouterConfig, Limiter, with_cors, parse_options, default_router_config,
}
use gopher_core.Http.Router.{Library, choose_limiter, burst_of, new_router, stack, routes}
use gopher_core.Http.Grants.{permitted, allow_origin_sent}
use gopher_core.Http.Refusals.{IsQuiet, router_refuses}
use gopher_core.Runtime.{nest, apply_options}

-- A limiter with a number of tokens left
abbrev take_token : Limiter ℕ
take_token zero = (false, 0)
take_token (suc n) = (true, n)

abbrev plain : Library ℕ
plain = record {
  traced = λ p h. h;
  request_id = λ h. h;
  real_ip = λ h. h;
  recoverer = λ h. h;
  logger = λ h. h;
  new_limiter = λ rps burst. take_token;
  metrics = λ r s. (write "metrics" ∷ [], s);
}

plain-IsQuiet : IsQuiet plain
plain-IsQuiet = record {
  traced_quiet = λ p h. refl;
  request_id_quiet = λ h. refl;
  real_ip_quiet = λ h. refl;
  recoverer_quiet = λ h. refl;
  logger_quiet = λ h. refl;
}

abbrev hello : Handler ℕ
hello r s = (write "hello" ∷ [], s)

abbrev from : String → Bool → Request
from origin gone = record {
  gone = gone;
  path = "/users";
  method = "GET";
  headers = ("Origin", origin) ∷ [];
}

abbrev friends : List String
friends = "https://a.example" ∷ "https://b.example" ∷ []

abbrev opts : List (Option (RouterConfig ℕ → RouterConfig ℕ))
unfolding with_cors
opts = none ∷ some (with_cors friends) ∷ []

served_friend :
    sent_header "Access-Control-Allow-Origin" none
      (new_router plain opts hello (from "https://b.example" false) 1).0
    ≡ some "https://b.example"
unfolding new_router nest stack routes parse_options apply_options default_router_config with_cors
    choose_limiter sent_header burst_of rate_limit_middleware security_headers_middleware
    cors_middleware grants common join_by listed get_header lookup
served_friend = refl

router_refuses_example :
    new_router plain [] hello (from "https://a.example" false) 0
    ≡ (security_headers ++ too_many_requests, 0)
unfolding choose_limiter parse_options apply_options default_router_config
router_refuses_example =
    router_refuses plain plain-IsQuiet [] hello (from "https://a.example" false) 0 take_token refl
      refl refl refl

allow_origin_sent_example :
    sent_header "Access-Control-Allow-Origin" none
      (cors_middleware friends ("GET" ∷ []) [] hello (from "https://b.example" false) 7).0
    ≡ permitted friends (from "https://b.example" false)
unfolding sent_header
allow_origin_sent_example =
    allow_origin_sent friends ("GET" ∷ []) [] hello (from "https://b.example" false) 7
      (λ r s v. refl)
