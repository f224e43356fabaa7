-- ===== src/Store/Tables.antt =====
-- The tables of integrations/telegram/dashboard_store.py that routes rest on, and their look-ups.
use basket_recovery_ea.Base.{ℕ, Bool, Option, none, some, List, [], ◌∷◌, ◌==◌, if◌then◌else◌}
use basket_recovery_ea.Base.Text.{Text}
use basket_recovery_ea.Bridge.SignalMeta.{SignalMeta}
use basket_recovery_ea.CandidateTest.{RouteMode, BlockReason}

-- A row of `tracked_channels`, `mt5_targets` and `routes`.
pub record Channel : Type 0 where
  pub id : ℕ
  pub telegram_channel_id : Text
  pub title : Text
  pub is_tracking : Bool

pub record Target : Type 0 where
  pub id : ℕ
  pub name : Text
  pub account_mode : Text
  pub expected_account_type : Text
  pub execution_permission : Text
  pub magic_number : ℕ
  pub chart_symbol : Text
  pub seed_filename : Text
  pub details_filename : Text
  pub broker_label : Text
  pub terminal_data_path : Text
  pub file_common_root : Text
  pub observer_only : Bool
  pub is_enabled : Bool

pub record Route : Type 0 where
  pub id : ℕ
  pub name : Text
  pub channel_id : ℕ
  pub target_id : ℕ
  pub mode : RouteMode
  pub is_enabled : Bool
  pub last_publish_status : Option Text
  pub last_publish_at : Option ℕ
  pub armed_at : Option ℕ
  pub expires_at : Option ℕ
  pub armed_by : Option Text
  pub publish_count : ℕ
  pub block_reason : Option Text
  pub updated_at : ℕ

-- A row of `route_listener_state`.
pub record ListenerState : Type 0 where
  pub route_id : ℕ
  pub listener_status : Text
  pub last_signal_status : Option Text
  pub last_error_code : Option Text
  pub last_publish_at : Option ℕ
  pub started_at : Option ℕ
  pub updated_at : ℕ

-- A row of `route_events`; the summary is its text with the signal that is appended to it.
pub record RouteEvent : Type 0 where
  pub route_id : ℕ
  pub event_type : Text
  pub status : Text
  pub target_id : Option ℕ
  pub fingerprint_short : Option Text
  pub seed_bytes : Option ℕ
  pub details_bytes : Option ℕ
  pub safe_summary : Text
  pub signal_meta : Option SignalMeta
  pub created_at : ℕ

pub record Database : Type 0 where
  pub channels : List Channel
  pub targets : List Target
  pub routes : List Route
  pub listener_states : List ListenerState
  pub events : List RouteEvent
  pub next_route_id : ℕ
  pub next_channel_id : ℕ
  -- `telegram_connection.status` is one of the two connected values
  pub is_connected : Bool

-- `DashboardValidationError` and `sqlite3.IntegrityError`.
pub data StoreError : Type 0 where
  route_not_found channel_not_found target_not_found target_not_observer : StoreError
  route_exists channel_has_routes target_has_routes nothing_to_update : StoreError
  arming_blocked : BlockReason → StoreError
  integrity_error : StoreError

pub data Stored (A : Type 0) : Type 0 where
  stored : A → Database → Stored A
  refused : StoreError → Stored A

abbrev pub find_route : ℕ → List Route → Option Route
find_route i [] = none
find_route i (r ∷ rs) = if r.id == i then some r else find_route i rs

abbrev pub find_channel : ℕ → List Channel → Option Channel
find_channel i [] = none
find_channel i (c ∷ cs) = if c.id == i then some c else find_channel i cs

abbrev pub find_target : ℕ → List Target → Option Target
find_target i [] = none
find_target i (t ∷ ts) = if t.id == i then some t else find_target i ts
