-- ===== src/Db/Connection.antt =====
-- dbkit/db.go: the settings, their options, and `Connect`. `sqlx.ConnectContext` is a parameter.
use gopher_core.Common.{ℕ, ◌*◌, List, [], ◌∷◌, String, Option, some, none, if◌then◌else◌}
use gopher_core.Common.Int.{ℤ, pos}
use gopher_core.Common.Dict.{same_key}
use gopher_core.Runtime.{Err, Outcome, returned, panicked, apply_options}

pub record Config : Type 0 where
  pub driver : String
  pub dsn : String
  pub max_open_conns : ℤ
  pub max_idle_conns : ℤ
  pub conn_max_lifetime : ℤ
  pub conn_max_idle_time : ℤ

abbrev pub minute : ℕ
minute = 60_000_000_000

unfoldable pub default_config : String → String → Config
default_config driver dsn = record {
  driver = driver;
  dsn = dsn;
  max_open_conns = pos 25;
  max_idle_conns = pos 5;
  conn_max_lifetime = pos (5 * minute);
  conn_max_idle_time = pos (1 * minute);
}

unfoldable pub with_max_open_conns : ℤ → Config → Config
with_max_open_conns n c = record c { max_open_conns = n }

unfoldable pub with_max_idle_conns : ℤ → Config → Config
with_max_idle_conns n c = record c { max_idle_conns = n }

unfoldable pub with_conn_max_lifetime : ℤ → Config → Config
with_conn_max_lifetime d c = record c { conn_max_lifetime = d }

unfoldable pub with_conn_max_idle_time : ℤ → Config → Config
with_conn_max_idle_time d c = record c { conn_max_idle_time = d }

-- The calls on the pool that `Connect` makes
pub data Tuning : Type 0 where
  set_max_open_conns set_max_idle_conns set_conn_max_lifetime set_conn_max_idle_time : ℤ → Tuning

-- What `Connect` returns: one of its own errors, that of the connection, or the pool after these calls
pub data Connected : Type 0 where
  driver_required dsn_required : Connected
  failed : Err → Connected
  connected : List Tuning → Connected

-- What follows the attempt to connect
abbrev pub tune : Config → Option Err → Connected
tune cfg (some e) = failed e
tune cfg none = connected (
    set_max_open_conns cfg.max_open_conns
    ∷ set_max_idle_conns cfg.max_idle_conns
    ∷ set_conn_max_lifetime cfg.conn_max_lifetime
    ∷ set_conn_max_idle_time cfg.conn_max_idle_time
    ∷ [])

-- `Connect`, of what `sqlx.ConnectContext` returns for a driver and a data source name
unfoldable pub connect :
    (String → String → Option Err) → String → String → List (Option (Config → Config)) → Connected
unfolding default_config apply_options
connect connects driver dsn opts =
    if same_key driver ""
    then driver_required
    else if same_key dsn ""
    then dsn_required
    else (let cfg : Config = apply_options opts (default_config driver dsn) in
        tune cfg (connects cfg.driver cfg.dsn))

-- `MustConnect`: the calls on the pool, or a panic, whose value is not told further
unfoldable pub must_connect :
    (String → String → Option Err)
    → String
    → String
    → List (Option (Config → Config))
    → Outcome (List Tuning)
unfolding connect
must_connect connects driver dsn opts = elim (connect connects driver dsn opts) [
  | connected tunings ↦ returned tunings
  | _ ↦ panicked 0
]

-- `HealthCheck`, of what `PingContext` does to a state `S`
unfoldable pub health_check : {S : Type 0} → (ping : S → S × Option Err) → S → S × Option Err
health_check ping s = ping s
