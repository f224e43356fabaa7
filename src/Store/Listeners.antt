-- ===== src/Store/Listeners.antt =====
-- dashboard_store.py: the state of a route's listener, its publish status and its events.
use basket_recovery_ea.Base.{ℕ, Option, none, some, List, [], ◌∷◌, ◌==◌, if◌then◌else◌, is_some}
use basket_recovery_ea.Base.Text.{Text}
use basket_recovery_ea.Store.Tables.{
  Route, ListenerState, RouteEvent, Database, Stored, find_route, stored, refused, integrity_error,
}
use basket_recovery_ea.Store.Arms.{update_where, has_id}

abbrev pub find_state : ℕ → List ListenerState → Option ListenerState
find_state i [] = none
find_state i (s ∷ ss) = if s.route_id == i then some s else find_state i ss

abbrev pub coalesce : {A : Type 0} → Option A → Option A → Option A
coalesce none old = old
coalesce (some a) old = some a

-- The arguments of `upsert_route_listener_state` behind the route.
pub record StateChange : Type 0 where
  pub listener_status : Text
  pub last_signal_status : Option Text
  pub last_error_code : Option Text
  pub last_publish_at : Option ℕ
  pub started_at : Option ℕ

abbrev pub change_state : StateChange → ℕ → ListenerState → ListenerState
change_state c now s = record s {
  listener_status = c.listener_status;
  last_signal_status = coalesce c.last_signal_status s.last_signal_status;
  last_error_code = c.last_error_code;
  last_publish_at = coalesce c.last_publish_at s.last_publish_at;
  started_at = coalesce c.started_at s.started_at;
  updated_at = now;
}

update_states : ℕ → StateChange → ℕ → List ListenerState → List ListenerState
update_states i c now [] = []
update_states i c now (s ∷ ss) =
    (if s.route_id == i then change_state c now s else s) ∷ update_states i c now ss

abbrev new_state : ℕ → StateChange → ℕ → ListenerState
new_state i c now = record {
  route_id = i;
  listener_status = c.listener_status;
  last_signal_status = c.last_signal_status;
  last_error_code = c.last_error_code;
  last_publish_at = c.last_publish_at;
  started_at = c.started_at;
  updated_at = now;
}

-- `upsert_route_listener_state`
unfoldable pub upsert_route_listener_state : ℕ → StateChange → ℕ → Database → Stored (Unit {0})
unfolding update_states
upsert_route_listener_state i c now db = elim (find_state i db.listener_states) [
  | some s ↦ stored tt (record db { listener_states = update_states i c now db.listener_states })
  | none ↦
      if is_some (find_route i db.routes)
      then stored tt (record db { listener_states = new_state i c now ∷ db.listener_states })
      else refused integrity_error
]

abbrev pub status_row : Text → ℕ → Route → Route
status_row status now r = record r {
  last_publish_status = some status;
  last_publish_at = some now;
  updated_at = now;
}

-- `update_route_publish_status`; no row is no error here.
unfoldable pub update_route_publish_status : ℕ → Text → ℕ → Database → Database
unfolding update_where
update_route_publish_status i status now db = record db {
  routes = update_where (has_id i) (status_row status now) db.routes;
}

-- `add_route_event`
unfoldable pub add_route_event : RouteEvent → Database → Stored (Unit {0})
add_route_event e db =
    if is_some (find_route e.route_id db.routes)
    then stored tt (record db { events = e ∷ db.events })
    else refused integrity_error
