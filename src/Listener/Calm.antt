-- ===== src/Listener/Calm.antt =====
-- What the database operations of a listener leave of a route: they do not arm it and keep its row.
use basket_recovery_ea.Base.{
  ℕ, ◌≡◌, refl, Bool, true, false, inl, inr, arith, Option-cases, is_some,
}
use basket_recovery_ea.Base.Text.{Text}
use basket_recovery_ea.CandidateTest.{is_armed_mode}
use basket_recovery_ea.Store.Tables.{
  Route, Database, RouteEvent, Stored, stored, refused, find_route,
}
use basket_recovery_ea.Store.Arms.{
  update_where, has_id, consume_row, overdue, expire_row, expire_candidate_test_arms,
  consume_candidate_test_publish, get_route_start_context,
}
use basket_recovery_ea.Store.Listeners.{
  StateChange, upsert_route_listener_state, update_route_publish_status, add_route_event,
  status_row,
}
use basket_recovery_ea.Listener.Rows.{is_armed, is_armed-update, found-update, found-route}

-- From one database to the next the route is not armed anew and keeps its joined row.
pub record Calm (i : ℕ) (db db' : Database) : Type 0 where
  pub unarmed : is_armed i db.routes ≡ false → is_armed i db'.routes ≡ false
  pub joined :
      is_some (get_route_start_context i db) ≡ true → is_some (get_route_start_context i db') ≡ true

pub Calm-refl : (i : ℕ) (db : Database) → Calm i db db
Calm-refl i db = record { unarmed = λ h. h; joined = λ h. h }

pub Calm-trans : (i : ℕ) (a b c : Database) → Calm i a b → Calm i b c → Calm i a c
Calm-trans i a b c f g = record {
  unarmed = λ h. g.unarmed (f.unarmed h);
  joined = λ h. g.joined (f.joined h);
}

-- A change of the table of routes row by row.
pub Calm-update :
    (i : ℕ) (test : Route → Bool) (change : Route → Route) (db : Database)
    → ((r : Route)
        → ((change r).id ≡ r.id)
          × ((change r).channel_id ≡ r.channel_id)
          × ((change r).target_id ≡ r.target_id))
    → ((r : Route) → is_armed_mode (change r).mode ≡ true → is_armed_mode r.mode ≡ true)
    → Calm i db (record db { routes = update_where test change db.routes })
Calm-update i test change db keeps calm = record {
  unarmed = is_armed-update test change (λ r. (keeps r).0) calm i db.routes;
  joined = λ h. joins h;
}
  where
    joins :
        is_some (get_route_start_context i db) ≡ true
        → is_some
            (get_route_start_context i (record db { routes = update_where test change db.routes }))
          ≡ true
    joins h = elim (Option-cases (get_route_start_context i db)) [
      | inl e ↦ absurd (ground arith)
      | inr (d, e) ↦
          let f = found-update test change keeps i db.routes d.route (found-route i db d e) in
          unfold get_route_start_context in ground (arith, f.1, f.2, f.3)
    ]

-- Whatever a transaction gives back or refuses.
abbrev pub after_op : {A : Type 0} → Database → Stored A → Database
after_op db (stored a db') = db'
after_op db (refused e) = db

pub expire-Calm : (i now : ℕ) (db : Database) → Calm i db (expire_candidate_test_arms now db)
unfolding expire_candidate_test_arms
expire-Calm i now db =
    Calm-update i (overdue now) (expire_row now) db (λ r. (refl, refl, refl)) (λ r h. cc)

pub status-Calm :
    (i j now : ℕ) (status : Text) (db : Database)
    → Calm i db (update_route_publish_status j status now db)
unfolding update_route_publish_status
status-Calm i j now status db =
    Calm-update i (has_id j) (status_row status now) db (λ r. (refl, refl, refl)) (λ r h. h)

pub consume-Calm :
    (i j now : ℕ) (db : Database)
    → Calm i db (after_op db (consume_candidate_test_publish j now db))
unfolding consume_candidate_test_publish
consume-Calm i j now db = elim (Option-cases (find_route j db.routes)) [
  | inl e ↦ rw (e, after_op) (Calm-refl i db)
  | inr (r, e) ↦
      rw (e, after_op)
        (Calm-update i (has_id j) (consume_row now) db (λ r'. (refl, refl, refl))
          (λ r' h. ground arith))
]

pub state-Calm :
    (i j now : ℕ) (c : StateChange) (db : Database)
    → Calm i db (after_op db (upsert_route_listener_state j c now db))
unfolding upsert_route_listener_state get_route_start_context
state-Calm i j now c db = record { unarmed = λ h. ground arith; joined = λ h. ground arith }

pub event-Calm :
    (i : ℕ) (e : RouteEvent) (db : Database) → Calm i db (after_op db (add_route_event e db))
unfolding add_route_event get_route_start_context
event-Calm i e db = record { unarmed = λ h. ground arith; joined = λ h. ground arith }
