-- ===== src/Http/Settings.antt =====
-- The settings of httpkit/router.go, their defaults and the functional options.
use gopher_core.Common.{ℕ, ◌*◌, ◌/◌, ◌^◌, Bool, true, List, [], ◌∷◌, String, Option, none}
use gopher_core.Common.Int.{ℤ, pos, negsuc, ltb_ℤ}
use gopher_core.Runtime.{apply_options}

-- A finite float64, which is an integer over a power of two
pub record Float : Type 0 where
  pub numerator : ℤ
  pub halvings : ℕ

abbrev pub is_positive : Float → Bool
is_positive f = ltb_ℤ (pos 0) f.numerator

-- `int(f)` of a positive float64 in the range of an int
unfoldable pub to_int : Float → ℤ
to_int f = elim (f.numerator) [ pos n ↦ pos (n / 2 ^ f.halvings) | negsuc n ↦ pos 0 ]

-- A limiter's `Allow` answers and moves its state.
abbrev pub Limiter : Type 0 → Type 0
Limiter S = S → Bool × S

pub record RouterConfig (S : Type 0) : Type 0 where
  -- none for nil
  pub rate_limiter : Option (Limiter S)
  pub allowed_origins : List String
  pub allowed_methods : List String
  pub allowed_headers : List String
  pub rate_limit : Float
  pub rate_burst : ℤ
  pub read_timeout : ℤ
  pub read_header_timeout : ℤ
  pub write_timeout : ℤ
  pub idle_timeout : ℤ
  pub enable_logger : Bool
  pub metrics_path : String

abbrev pub second : ℕ
second = 1_000_000_000

module _ {S : Type 0} where
  unfoldable pub default_router_config : RouterConfig S
  default_router_config = record {
    rate_limiter = none;
    allowed_origins = [];
    allowed_methods = "GET" ∷ "POST" ∷ "PUT" ∷ "DELETE" ∷ "PATCH" ∷ "OPTIONS" ∷ [];
    allowed_headers = "Accept" ∷ "Authorization" ∷ "Content-Type" ∷ "X-Request-ID" ∷ [];
    rate_limit = record { numerator = pos 100; halvings = 0 };
    rate_burst = pos 200;
    read_timeout = pos (15 * second);
    read_header_timeout = pos (5 * second);
    write_timeout = pos (15 * second);
    idle_timeout = pos (120 * second);
    enable_logger = true;
    metrics_path = "/metrics";
  }

  unfoldable pub with_cors : List String → RouterConfig S → RouterConfig S
  with_cors origins c = record c { allowed_origins = origins }

  unfoldable pub with_custom_rate_limiter : Option (Limiter S) → RouterConfig S → RouterConfig S
  with_custom_rate_limiter limiter c = record c { rate_limiter = limiter }

  unfoldable pub with_rate_limit : Float → ℤ → RouterConfig S → RouterConfig S
  with_rate_limit rps burst c = record c { rate_limit = rps; rate_burst = burst }

  unfoldable pub with_read_timeout : ℤ → RouterConfig S → RouterConfig S
  with_read_timeout d c = record c { read_timeout = d }

  unfoldable pub with_read_header_timeout : ℤ → RouterConfig S → RouterConfig S
  with_read_header_timeout d c = record c { read_header_timeout = d }

  unfoldable pub with_write_timeout : ℤ → RouterConfig S → RouterConfig S
  with_write_timeout d c = record c { write_timeout = d }

  unfoldable pub with_idle_timeout : ℤ → RouterConfig S → RouterConfig S
  with_idle_timeout d c = record c { idle_timeout = d }

  unfoldable pub with_logger : Bool → RouterConfig S → RouterConfig S
  with_logger enabled c = record c { enable_logger = enabled }

  unfoldable pub with_metrics_path : String → RouterConfig S → RouterConfig S
  with_metrics_path path c = record c { metrics_path = path }

  unfoldable pub parse_options : List (Option (RouterConfig S → RouterConfig S)) → RouterConfig S
  unfolding default_router_config apply_options
  parse_options opts = apply_options opts default_router_config
