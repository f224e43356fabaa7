-- ===== src/Listener/Manager/Writes.antt =====
-- route_listener_service.py: the state of RouteListenerManager, and what its methods write.
use basket_recovery_ea.Base.{
  ℕ, Bool, Option, none, some, List, [], ◌∷◌, if◌then◌else◌, ◌==◌, any, select, not,
}
use basket_recovery_ea.Base.Text.{Text, codes}
use basket_recovery_ea.Bridge.Publish.{Env}
use basket_recovery_ea.Bridge.Files.{World}
use basket_recovery_ea.Bridge.Matcher.{Settings}
use basket_recovery_ea.Store.Tables.{Database, StoreError, Stored, stored, refused, RouteEvent}
use basket_recovery_ea.Store.Listeners.{StateChange, upsert_route_listener_state, add_route_event}
use basket_recovery_ea.Listener.{RouteRuntime}
use basket_recovery_ea.Listener.Start.{StartError}

-- A directory that `resolve_root` returns: what resolves in it and what it holds.
pub record Root : Type 0 where
  pub env : Env
  pub world : World

-- What becomes of a target's `file_common_root`, which a dry run creates.
pub data Opened : Type 0 where
  opened : Root → Opened
  not_a_directory cannot_create : Opened

-- The arguments of the constructor, and the file system at the time of a start.
pub record ManagerConfig : Type 0 where
  pub dry_run : Bool
  pub telethon_enabled : Bool
  pub pair_timeout_seconds : ℕ
  pub open_root : Bool → Text → Opened

-- An entry of `_active`: a runtime, with the channel key of its context and what its objects keep.
pub record ActiveRoute : Type 0 where
  pub channel_key : Text
  pub settings : Settings
  pub runtime : RouteRuntime

-- `_active` is a dictionary by route, in the order of insertion.
pub record Manager : Type 0 where
  pub db : Database
  pub active : List ActiveRoute
  -- `_telethon_bridge` is not `None`
  pub has_bridge : Bool

abbrev pub id_of : ActiveRoute → ℕ
id_of a = a.runtime.route_id

abbrev pub has_route : ℕ → ActiveRoute → Bool
has_route i a = id_of a == i

abbrev pub is_active : ℕ → List ActiveRoute → Bool
is_active i active = any (has_route i) active

abbrev pub without : ℕ → List ActiveRoute → List ActiveRoute
without i active = select (λ a. not (has_route i a)) active

abbrev pub find_active : ℕ → List ActiveRoute → Option ActiveRoute
find_active i [] = none
find_active i (a ∷ rest) = if has_route i a then some a else find_active i rest

-- `self._active[route_id] = runtime`: the entry of the key is replaced where it stands, or a new one
-- is added at the end.
abbrev pub set_active : ActiveRoute → List ActiveRoute → List ActiveRoute
set_active a [] = a ∷ []
set_active a (b ∷ rest) = if id_of b == id_of a then a ∷ rest else b ∷ set_active a rest

-- What a call responds, and the exceptions that it lets through.
pub data Response : Type 0 where
  listener_started : Bool → Text → Response
  start_refused : StartError → Response
  target_root_invalid : Response
  hook_failed : Text → Response
  listener_stopped : Bool → Response
  raised_store : StoreError → Response
  raised_os : Response

abbrev pub change : Text → Text → Option Text → Option ℕ → StateChange
change status summary error started = record {
  listener_status = status;
  last_signal_status = some summary;
  last_error_code = error;
  last_publish_at = none;
  started_at = started;
}

abbrev pub happened : ℕ → Text → Text → Option ℕ → Text → ℕ → RouteEvent
happened i event_type status target_id summary now = record {
  route_id = i;
  event_type = event_type;
  status = status;
  target_id = target_id;
  fingerprint_short = none;
  seed_bytes = none;
  details_bytes = none;
  safe_summary = summary;
  signal_meta = none;
  created_at = now;
}

abbrev pub Call : Type 0
Call = Manager → Response × Manager

-- A transaction on the database, and what follows it.
abbrev pub on_stored : {A : Type 0} → Manager → Stored A → Call → Response × Manager
on_stored m (stored a db) next = next (record m { db = db })
on_stored m (refused e) next = (raised_store e, m)

abbrev pub stored_then : {A : Type 0} → (Database → Stored A) → Call → Call
stored_then op next m = on_stored m (op m.db) next

-- What a start, a failed hook and a stop write.
abbrev pub Write : Type 0
Write = Database → Stored (Unit {0})

abbrev pub waiting_change : ℕ → StateChange
waiting_change now = change (codes "WAITING") (codes "Kanal dinlenmeye hazır.") none (some now)

abbrev pub write_start_state : ℕ → ℕ → Write
write_start_state i now = upsert_route_listener_state i (waiting_change now) now

abbrev pub start_event : ℕ → ℕ → ℕ → RouteEvent
start_event i target_id now =
    happened i (codes "LISTENER_START") (codes "WAITING") (some target_id)
      (codes "Route listener started (observer-only).") now

abbrev pub write_start_event : ℕ → ℕ → ℕ → Write
write_start_event i target_id now = add_route_event (start_event i target_id now)

abbrev pub hook_change : Text → StateChange
hook_change error =
    change (codes "LISTENER_STOPPED") (codes "Telegram dinleyicisi başlatılamadı.") (some error)
      none

abbrev pub write_hook_failure : ℕ → Text → ℕ → Write
write_hook_failure i error now = upsert_route_listener_state i (hook_change error) now

abbrev pub write_stop_state : ℕ → ℕ → Write
write_stop_state i now =
    upsert_route_listener_state i
      (change (codes "LISTENER_STOPPED") (codes "Dinleme durduruldu.") none none) now

abbrev pub write_stop_event : ℕ → Option ℕ → ℕ → Write
write_stop_event i target_id now = add_route_event (
    happened i (codes "LISTENER_STOP") (codes "LISTENER_STOPPED") target_id
      (codes "Route listener stopped.") now)
