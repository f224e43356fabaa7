-- ===== src/Listener/Steps.antt =====
-- route_listener_service.py: the runtime of a route, and the steps that `_process_message` is made
-- of, on it and on the database.
use basket_recovery_ea.Base.{ℕ, none, some, List, Option}
use basket_recovery_ea.Base.Text.{Text}
use basket_recovery_ea.Bridge.Errors.{Error}
use basket_recovery_ea.Bridge.Matcher.{Clock}
use basket_recovery_ea.Bridge.Handler.{Handler}
use basket_recovery_ea.Store.Tables.{Database, RouteEvent, StoreError, Stored, stored, refused}
use basket_recovery_ea.Store.Listeners.{StateChange}

-- `RouteRuntime`, with what is read of its context.
pub record RouteRuntime : Type 0 where
  pub route_id : ℕ
  pub target_id : ℕ
  pub handler : Handler
  pub seen_raw_hashes : List Text

-- The database and the runtime that a message is processed with.
pub record Session : Type 0 where
  pub db : Database
  pub runtime : RouteRuntime

-- How a step ends: normally, or with an exception of the database or of the bridge.
pub data Ending : Type 0 where
  completed : Ending
  store_error : StoreError → Ending
  bridge_error : Error → Ending

abbrev pub Step : Type 0
Step = Session → Ending × Session

-- What follows a step: the next one, if there was no exception.
abbrev pub resume : Ending × Session → Step → Ending × Session
resume (completed, s) next = next s
resume (store_error e, s) next = (store_error e, s)
resume (bridge_error e, s) next = (bridge_error e, s)

infixl 5 ◌>>◌
abbrev pub ◌>>◌ : Step → Step → Step
(first >> next) s = resume (first s) next

abbrev pub skip : Step
skip s = (completed, s)

abbrev pub after : {A : Type 0} → Session → Stored A → Ending × Session
after s (stored a db) = (completed, record s { db = db })
after s (refused e) = (store_error e, s)

-- A transaction on the database.
abbrev pub store : {A : Type 0} → (Database → Stored A) → Step
store op s = after s (op s.db)

abbrev pub on_database : (Database → Database) → Step
on_database f s = (completed, record s { db = f s.db })

-- The readings of the clocks while one message is processed: the handler's, and the database's
-- before and after the handler runs.
pub record Moment : Type 0 where
  pub clock : Clock
  pub now : ℕ
  pub later : ℕ

abbrev pub state : Text → Text → Option Text → StateChange
state status summary error = record {
  listener_status = status;
  last_signal_status = some summary;
  last_error_code = error;
  last_publish_at = none;
  started_at = none;
}

abbrev pub event : RouteRuntime → Text → Text → Text → ℕ → RouteEvent
event runtime event_type status summary now = record {
  route_id = runtime.route_id;
  event_type = event_type;
  status = status;
  target_id = some runtime.target_id;
  fingerprint_short = none;
  seed_bytes = none;
  details_bytes = none;
  safe_summary = summary;
  signal_meta = none;
  created_at = now;
}
