-- ===== src/Listener/Start.antt =====
-- route_listener_service.py: whether the listener of a route may start (`validate_start`). The
-- context that it builds is the joined row; its channel key is left out.
use basket_recovery_ea.Base.{ℕ, ◌≡◌, ◌↔◌, Bool, true, false, ◌&&◌, Option, none, some, arith}
use basket_recovery_ea.CandidateTest.{route_supports_listener_start}
use basket_recovery_ea.Store.Tables.{Database}
use basket_recovery_ea.Store.Arms.{RouteDetail, get_route_start_context}

-- `START_ERROR_…`
pub data StartError : Type 0 where
  not_found not_connected invalid_mode tracking_off route_off target_off not_observer : StartError

pub data Validated : Type 0 where
  allowed : RouteDetail → Validated
  rejected : StartError → Validated

abbrev require : Bool → StartError → Validated → Validated
require true error rest = rest
require false error rest = rejected error

pub check_context : Bool → Option RouteDetail → Validated
check_context is_connected none = rejected not_found
check_context is_connected (some d) = require is_connected not_connected (
    require (route_supports_listener_start d.route.mode) invalid_mode (
      require d.channel.is_tracking tracking_off (
        require d.route.is_enabled route_off (
          require d.target.is_enabled target_off
            (require d.target.observer_only not_observer (allowed d))))))

unfoldable pub validate_start : ℕ → Database → Validated
unfolding check_context
validate_start route_id db = check_context db.is_connected (get_route_start_context route_id db)

abbrev pub may_start : Bool → RouteDetail → Bool
may_start is_connected d =
    is_connected
    && route_supports_listener_start d.route.mode
    && d.channel.is_tracking
    && d.route.is_enabled
    && d.target.is_enabled
    && d.target.observer_only

-- The listener of a route may start with a joined row exactly if this is the row of the route in
-- the database, Telegram is connected, the mode is to observe or armed, the channel is tracked,
-- the route and the target are enabled, and the target is for observing only.
pub validate_start_lem :
    (i : ℕ) (db : Database) (d : RouteDetail)
    → (validate_start i db ≡ allowed d)
      ↔ ((get_route_start_context i db ≡ some d) × (may_start db.is_connected d ≡ true))
unfolding validate_start
validate_start_lem i db d = ground arith
