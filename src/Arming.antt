-- ===== src/Arming.antt =====
-- integrations/telegram/dashboard_api.py: `_arm_candidate_test_route` and
-- `_disarm_candidate_test_route`. Each store operation is a transaction of its own, so what ran
-- before a refusal stays.
pub mod Steps
pub mod Invariant
pub mod Joined
pub mod Permission
pub mod Tests
use basket_recovery_ea.Base.{ℕ, Option, none, some}
use basket_recovery_ea.Base.Text.{Text, codes}
use basket_recovery_ea.CandidateTest.{
  ArmRoute, ArmTarget, BlockReason, validate_arm_eligibility, build_arm_schedule,
}
use basket_recovery_ea.Store.Tables.{
  Route, Database, StoreError, route_not_found, arming_blocked, Stored, stored, refused,
}
use basket_recovery_ea.Store.Arms.{
  RouteDetail, get_route_detail, count_arms_except, arm_candidate_test_route,
  disarm_candidate_test_route,
}

pub data Answer : Type 0 where
  answered : Answer
  rejected : StoreError → Answer

-- The keys of the joined row that `validate_arm_eligibility` reads, as a route and as a target. In
-- that row `is_enabled` is the route's: the target's flag has the key `target_is_enabled`.
abbrev pub as_arm_route : RouteDetail → ArmRoute
as_arm_route d = record {
  is_enabled = d.route.is_enabled;
  channel_title = d.channel.title;
  name = d.route.name;
  mode = d.route.mode;
}

abbrev pub as_arm_target : RouteDetail → ArmTarget
as_arm_target d = record {
  is_enabled = d.route.is_enabled;
  account_mode = d.target.account_mode;
  expected_account_type = d.target.expected_account_type;
  execution_permission = d.target.execution_permission;
  magic_number = d.target.magic_number;
  chart_symbol = d.target.chart_symbol;
  seed_filename = d.target.seed_filename;
  details_filename = d.target.details_filename;
  broker_label = d.target.broker_label;
  terminal_data_path = d.target.terminal_data_path;
}

abbrev pub commit : Database → Stored Route → Answer × Database
commit db (refused e) = (rejected e, db)
commit db (stored r db') = (answered, db')

abbrev pub local_operator : Text
local_operator = codes "local_operator"

-- Behind the eligibility check.
pub arm_if : ℕ → ℕ → Option BlockReason → Database → Answer × Database
unfolding build_arm_schedule
arm_if now route_id (some reason) db = (rejected (arming_blocked reason), db)
arm_if now route_id none db =
    let (armed_at, expires_at) = build_arm_schedule now in
    let (answer, db') =
      commit db (arm_candidate_test_route route_id armed_at expires_at local_operator now db) in
    (answer, (get_route_detail now route_id db').1)

pub arm_detail : ℕ → ℕ → Option RouteDetail → Database → Answer × Database
unfolding arm_if
arm_detail now route_id none db = (rejected route_not_found, db)
arm_detail now route_id (some d) db =
    arm_if now route_id
      (validate_arm_eligibility (as_arm_route d) (as_arm_target d)
        (count_arms_except route_id db.routes))
      db

-- `_arm_candidate_test_route`, at one reading of the clock.
unfoldable pub arm_route : ℕ → ℕ → Database → Answer × Database
unfolding arm_detail
arm_route now route_id db =
    let (detail, db') = get_route_detail now route_id db in arm_detail now route_id detail db'

-- `_disarm_candidate_test_route`
unfoldable pub disarm_route : ℕ → ℕ → Database → Answer × Database
disarm_route now route_id db =
    let (answer, db') = commit db (disarm_candidate_test_route route_id now db) in
    (answer, (get_route_detail now route_id db').1)
