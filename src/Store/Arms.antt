-- ===== src/Store/Arms.antt =====
-- dashboard_store.py: the joined row of a route, and the operations on its candidate-test arm.
use basket_recovery_ea.Base.{
  ℕ, suc, ◌+◌, Bool, false, not, ◌&&◌, Option, none, some, List, [], ◌∷◌, ◌==◌, leb, if◌then◌else◌,
}
use basket_recovery_ea.Base.Text.{Text, codes}
use basket_recovery_ea.CandidateTest.{
  observer_only, armed, consumed, expired, blocked, is_armed_mode, Arm,
}
use basket_recovery_ea.Store.Tables.{
  Channel, Target, Route, Database, Stored, find_route, find_channel, find_target, stored, refused,
  route_not_found,
}

-- `UPDATE routes SET … WHERE …`
unfoldable pub update_where : (Route → Bool) → (Route → Route) → List Route → List Route
update_where test change [] = []
update_where test change (r ∷ rs) = (if test r then change r else r) ∷ update_where test change rs

abbrev pub has_id : ℕ → Route → Bool
has_id i r = r.id == i

-- `UPDATE routes SET … WHERE id = ?`, with the row read back.
unfoldable pub update_one : ℕ → (Route → Route) → Database → Stored Route
unfolding update_where
update_one i change db = elim (find_route i db.routes) [
  | none ↦ refused route_not_found
  | some r ↦ stored (change r) (record db { routes = update_where (has_id i) change db.routes })
]

abbrev pub overdue : ℕ → Route → Bool
overdue now r =
    is_armed_mode r.mode && elim r.expires_at [ none ↦ false | some expires ↦ leb expires now ]

abbrev pub expire_row : ℕ → Route → Route
expire_row now r = record r {
  mode = expired;
  block_reason = some (codes "CANDIDATE_TEST_TTL_EXPIRED");
  updated_at = now;
}

-- `expire_candidate_test_arms`: the updated table; the returned list is not used by the callers.
unfoldable pub expire_candidate_test_arms : ℕ → Database → Database
unfolding update_where
expire_candidate_test_arms now db = record db {
  routes = update_where (overdue now) (expire_row now) db.routes;
}

-- The joined row of `get_route_detail` and `get_route_start_context`.
pub record RouteDetail : Type 0 where
  pub route : Route
  pub channel : Channel
  pub target : Target

unfoldable pub join_target : Route → Channel → Option Target → Option RouteDetail
join_target r c none = none
join_target r c (some t) = some (record { route = r; channel = c; target = t })

unfoldable pub join_channel : Database → Route → Option Channel → Option RouteDetail
unfolding join_target
join_channel db r none = none
join_channel db r (some c) = join_target r c (find_target r.target_id db.targets)

unfoldable pub join_route : Database → Option Route → Option RouteDetail
unfolding join_channel
join_route db none = none
join_route db (some r) = join_channel db r (find_channel r.channel_id db.channels)

-- What the publication check reads of a row.
abbrev pub arm_of : Route → Arm
arm_of r = record { mode = r.mode; expires_at = r.expires_at; publish_count = r.publish_count }

-- `get_route_start_context`
unfoldable pub get_route_start_context : ℕ → Database → Option RouteDetail
unfolding join_route
get_route_start_context route_id db = join_route db (find_route route_id db.routes)

-- `get_route_detail`
unfoldable pub get_route_detail : ℕ → ℕ → Database → Option RouteDetail × Database
unfolding get_route_start_context expire_candidate_test_arms
get_route_detail now route_id db =
    let db' = expire_candidate_test_arms now db in (get_route_start_context route_id db', db')

-- `count_active_candidate_test_arms(exclude_route_id=…)`
unfoldable pub count_arms_except : ℕ → List Route → ℕ
count_arms_except i [] = 0
count_arms_except i (r ∷ rs) =
    if is_armed_mode r.mode && not (r.id == i)
    then suc (count_arms_except i rs)
    else count_arms_except i rs

abbrev pub arm_row : ℕ → ℕ → Text → ℕ → Route → Route
arm_row armed_at expires_at armed_by now r = record r {
  mode = armed;
  armed_at = some armed_at;
  expires_at = some expires_at;
  armed_by = some armed_by;
  publish_count = 0;
  block_reason = none;
  updated_at = now;
}

unfoldable pub arm_candidate_test_route : ℕ → ℕ → ℕ → Text → ℕ → Database → Stored Route
unfolding update_one
arm_candidate_test_route route_id armed_at expires_at armed_by now =
    update_one route_id (arm_row armed_at expires_at armed_by now)

abbrev pub disarm_row : ℕ → Route → Route
disarm_row now r = record r {
  mode = observer_only;
  armed_at = none;
  expires_at = none;
  armed_by = none;
  publish_count = 0;
  block_reason = none;
  updated_at = now;
}

unfoldable pub disarm_candidate_test_route : ℕ → ℕ → Database → Stored Route
unfolding update_one
disarm_candidate_test_route route_id now = update_one route_id (disarm_row now)

-- The new count is at least one, so the mode is always `CANDIDATE_TEST_CONSUMED`.
abbrev pub consume_row : ℕ → Route → Route
consume_row now r = record r {
  publish_count = r.publish_count + 1;
  mode = if leb 1 (r.publish_count + 1) then consumed else r.mode;
  block_reason = none;
  updated_at = now;
}

unfoldable pub consume_candidate_test_publish : ℕ → ℕ → Database → Stored Route
unfolding update_one
consume_candidate_test_publish route_id now = update_one route_id (consume_row now)

abbrev pub block_row : Text → ℕ → Route → Route
block_row reason now r = record r { mode = blocked; block_reason = some reason; updated_at = now }

unfoldable pub block_candidate_test_route : ℕ → Text → ℕ → Database → Stored Route
unfolding update_one
block_candidate_test_route route_id reason now = update_one route_id (block_row reason now)
