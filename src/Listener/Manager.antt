-- ===== src/Listener/Manager.antt =====
-- route_listener_service.py: the listeners that run (`RouteListenerManager`), from their start to
-- the delivery of a message.
pub mod Writes
pub mod Ids
pub mod Calls
pub mod Starting
pub mod Running
pub mod Tests
use basket_recovery_ea.Base.{
  ℕ, Bool, true, false, Option, none, some, [], ◌∷◌, if◌then◌else◌, not, is_some, ◌&&◌,
}
use basket_recovery_ea.Base.Text.{Text, codes, text_eq}
use basket_recovery_ea.Bridge.Files.{World}
use basket_recovery_ea.Bridge.Handler.{Handler}
use basket_recovery_ea.Store.Tables.{Database}
use basket_recovery_ea.Store.Arms.{RouteDetail, get_route_start_context}
use basket_recovery_ea.Store.Listeners.{find_state}
use basket_recovery_ea.Listener.Start.{Validated, allowed, rejected, validate_start}
use basket_recovery_ea.Listener.Channel.{canonical_channel_key_from_text}
pub use basket_recovery_ea.Listener.Manager.Writes.{
  Root, Opened, ManagerConfig, ActiveRoute, Manager, id_of, has_route, is_active, without,
  find_active, set_active, Response, change, happened, Call, on_stored, stored_then, Write,
  waiting_change, write_start_state, start_event, write_start_event, hook_change,
  write_hook_failure, write_stop_state, write_stop_event, opened, not_a_directory, cannot_create,
  listener_started, start_refused, target_root_invalid, hook_failed, listener_stopped, raised_store,
  raised_os,
}

-- The `listener_status` of `_start_response`.
pub status_of : ℕ → Database → Text
status_of i db = elim (get_route_start_context i db) [
  | none ↦ codes "WAITING"
  | some d ↦ elim (find_state i db.listener_states) [
    | none ↦ codes "LISTENER_STOPPED"
    | some s ↦ s.listener_status
  ]
]

abbrev key_or : Option Text → Text → Text
key_or none raw = raw
key_or (some key) raw = key

unfoldable pub fresh_handler : World → Handler
fresh_handler world = record {
  matcher = record {
    outlet = record {
      publisher = record {
        published_fingerprints = [];
        last_signal_meta = none;
        last_seed_bytes = none;
        last_details_bytes = none;
      };
      world = world;
      log = [];
    };
    pending_seed = none;
    seed_by_grouped_id = [];
    next_serial = 0;
  };
  seen_message_keys = [];
  seen_raw_hashes = [];
}

module _ (config : ManagerConfig) where
  -- The runtime of `_build_runtime`, for the context of `validate_start`.
  pub build_runtime : RouteDetail → Root → ActiveRoute
  unfolding fresh_handler canonical_channel_key_from_text
  build_runtime d root = record {
    channel_key =
        key_or (canonical_channel_key_from_text d.channel.telegram_channel_id)
          d.channel.telegram_channel_id;
    settings = record {
      env = root.env;
      setup = record {
        seed_filename = d.target.seed_filename;
        details_filename = d.target.details_filename;
        dry_run = config.dry_run;
      };
      pair_timeout_seconds = config.pair_timeout_seconds;
    };
    runtime = record {
      route_id = d.route.id;
      target_id = d.target.id;
      handler = fresh_handler root.world;
      seen_raw_hashes = [];
    };
  }

  abbrev pub started : Bool → ℕ → Call
  started already i m = (listener_started already (status_of i m.db), m)

  -- The hook on Telegram; `hook` is what `ensure_started` returns.
  pub by_hook : ℕ → Option Text → ℕ → Call
  by_hook i none now m = started false i (record m { has_bridge = true })
  by_hook i (some error) now m =
      stored_then (write_hook_failure i error now) (λ m'. (hook_failed error, m'))
        (record m { has_bridge = true; active = without i m.active })

  pub hooked : ℕ → Option Text → ℕ → Call
  unfolding by_hook
  hooked i hook now m = if config.telethon_enabled then by_hook i hook now m else started false i m

  pub register_runtime : ℕ → RouteDetail → Root → Option Text → ℕ → Call
  unfolding build_runtime hooked
  register_runtime i d root hook now m =
      stored_then (write_start_state i now)
        (stored_then (write_start_event i d.target.id now) (hooked i hook now))
        (record m { active = set_active (build_runtime d root) m.active })

  pub by_root : ℕ → RouteDetail → Opened → Option Text → ℕ → Call
  unfolding register_runtime
  by_root i d (opened root) hook now m = register_runtime i d root hook now m
  by_root i d not_a_directory hook now m = (target_root_invalid, m)
  by_root i d cannot_create hook now m = (raised_os, m)

  pub by_validation : ℕ → Validated → Option Text → ℕ → Call
  unfolding by_root
  by_validation i (rejected e) hook now m = (start_refused e, m)
  by_validation i (allowed d) hook now m =
      by_root i d (config.open_root config.dry_run d.target.file_common_root) hook now m

  unfoldable pub start_route : ℕ → Option Text → ℕ → Call
  unfolding by_validation validate_start
  start_route i hook now m =
      if is_active i m.active
      then started true i m
      else by_validation i (validate_start i m.db) hook now m

abbrev pub target_of : Option ActiveRoute → Option ℕ
target_of none = none
target_of (some a) = some a.runtime.target_id

abbrev pub has_stopped : Option Text → Bool
has_stopped none = false
has_stopped (some status) = text_eq status (codes "LISTENER_STOPPED")

-- The bridge is shut down with the last listener.
abbrev pub without_bridge_if_idle : Manager → Manager
without_bridge_if_idle m = elim m.active [ [] ↦ record m { has_bridge = false } | _ ∷ _ ↦ m ]

abbrev pub state_status : ℕ → Database → Option Text
state_status i db = elim (find_state i db.listener_states) [
  | none ↦ none
  | some s ↦ some s.listener_status
]

abbrev pub stop_found : ℕ → Option ActiveRoute → ℕ → Call
stop_found i removed now m =
    stored_then (write_stop_state i now)
      (stored_then (write_stop_event i (target_of removed) now)
        (λ m'. (listener_stopped false, without_bridge_if_idle m')))
      (record m { active = without i m.active })

unfoldable pub stop_route : ℕ → ℕ → Call
unfolding text_eq
stop_route i now m =
    let removed = find_active i m.active in
    if not (is_some removed) && has_stopped (state_status i m.db)
    then (listener_stopped true, m)
    else stop_found i removed now m
