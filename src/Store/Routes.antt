-- ===== src/Store/Routes.antt =====
-- dashboard_store.py: `create_route`, `update_route` and `delete_route`.
use basket_recovery_ea.Base.{
  ℕ, suc, Bool, true, not, ◌&&◌, ◌||◌, Option, none, some, List, [], ◌∷◌, ◌==◌, if◌then◌else◌, any,
  select, is_some, false,
}
use basket_recovery_ea.Base.Text.{Text, text_eq, strip}
use basket_recovery_ea.CandidateTest.{observer_only}
use basket_recovery_ea.Store.Tables.{
  Target, Route, Database, Stored, find_route, find_channel, find_target, stored, refused,
  route_not_found, channel_not_found, target_not_found, target_not_observer, route_exists,
  nothing_to_update, integrity_error,
}
use basket_recovery_ea.Store.Arms.{update_one}

-- `delete_route`, with the rows that the foreign keys take along.
unfoldable pub delete_route : ℕ → Database → Stored (Unit {0})
delete_route route_id db = elim (find_route route_id db.routes) [
  | none ↦ refused route_not_found
  | some r ↦ stored tt (record db {
    routes = select (λ r'. not (r'.id == route_id)) db.routes;
    listener_states = select (λ s. not (s.route_id == route_id)) db.listener_states;
    events = select (λ e. not (e.route_id == route_id)) db.events;
  })
]

-- The change of `update_route` at the fields that it lets through.
abbrev pub update_row : Option Text → Option Bool → ℕ → Route → Route
update_row name is_enabled now r = record r {
  name = elim name [ none ↦ r.name | some n ↦ n ];
  is_enabled = elim is_enabled [ none ↦ r.is_enabled | some b ↦ b ];
  updated_at = now;
}

-- `UNIQUE(name)`: another route has the name.
abbrev pub is_name_taken : ℕ → Option Text → List Route → Bool
is_name_taken route_id none rs = false
is_name_taken route_id (some n) rs = any (λ r. text_eq r.name n && not (r.id == route_id)) rs

abbrev pub is_some_field : Option Text → Option Bool → Bool
is_some_field name is_enabled = is_some name || is_some is_enabled

-- `update_route` behind the test for the keys `mode` and `execution`.
unfoldable pub update_route : ℕ → Option Text → Option Bool → ℕ → Database → Stored Route
unfolding update_one text_eq
update_route route_id name is_enabled now db =
    if not (is_some_field name is_enabled)
    then refused nothing_to_update
    else if is_some (find_route route_id db.routes) && is_name_taken route_id name db.routes
    then refused integrity_error
    else update_one route_id (update_row name is_enabled now) db

abbrev pub clashes : Text → ℕ → ℕ → Route → Bool
clashes name channel_id target_id r =
    text_eq r.name name || (r.channel_id == channel_id && r.target_id == target_id)

abbrev pub new_route : ℕ → Text → ℕ → ℕ → ℕ → Route
new_route i name channel_id target_id now = record {
  id = i;
  name = name;
  channel_id = channel_id;
  target_id = target_id;
  mode = observer_only;
  is_enabled = true;
  last_publish_status = none;
  last_publish_at = none;
  armed_at = none;
  expires_at = none;
  armed_by = none;
  publish_count = 0;
  block_reason = none;
  updated_at = now;
}

abbrev pub find_by_name : Text → List Route → Option Route
find_by_name name [] = none
find_by_name name (r ∷ rs) = if text_eq r.name name then some r else find_by_name name rs

abbrev pub inserted : Text → ℕ → ℕ → ℕ → Database → Database
inserted name channel_id target_id now db = record db {
  routes = new_route db.next_route_id (strip name) channel_id target_id now ∷ db.routes;
  next_route_id = suc db.next_route_id;
}

-- The insertion, committed before the row that is read back by the name as it was given is made a
-- dictionary: `none` is the `TypeError` of `dict(None)`.
unfoldable pub insert_route : Text → ℕ → ℕ → ℕ → Database → Stored (Option Route)
unfolding text_eq strip
insert_route name channel_id target_id now db =
    if any (clashes (strip name) channel_id target_id) db.routes
    then refused route_exists
    else (let db' : Database = inserted name channel_id target_id now db in
        stored (find_by_name name db'.routes) db')

unfoldable pub check_target : Option Target → Stored (Option Route) → Stored (Option Route)
check_target none next = refused target_not_found
check_target (some t) next = if t.observer_only then next else refused target_not_observer

-- `create_route`, at a payload with no mode or the mode `OBSERVER_ONLY`.
unfoldable pub create_route : Text → ℕ → ℕ → ℕ → Database → Stored (Option Route)
unfolding insert_route check_target
create_route name channel_id target_id now db = elim (find_channel channel_id db.channels) [
  | none ↦ refused channel_not_found
  | some c ↦
      check_target (find_target target_id db.targets)
        (insert_route name channel_id target_id now db)
]
