-- ===== src/Listener/Manager/Tests.antt =====
-- Calls of the manager on a small database.
use basket_recovery_ea.Base.{◌≡◌, ◌⊎◌, true, false, none, some, List, [], ◌∷◌}
use basket_recovery_ea.Base.Int.{negsuc}
use basket_recovery_ea.Base.Text.{codes}
use basket_recovery_ea.Bridge.Tests.Sample.{
  sample_settings, empty_directory, message, gold_buy, clock_at,
}
use basket_recovery_ea.Arming.Tests.{small_database}
use basket_recovery_ea.Store.Arms.{RouteDetail}
use basket_recovery_ea.Listener.Start.{validate_start, allowed}
use basket_recovery_ea.Listener.Manager.{
  ManagerConfig, Manager, Root, opened, build_runtime, start_route,
}
use basket_recovery_ea.Listener.Manager.Calls.{
  ManagerCall, start_call, stop_call, message_call, call_all,
}
use basket_recovery_ea.Listener.Manager.Running.{running, abstract_run, answered, call_all-running}
use basket_recovery_ea.Listener.Manager.Starting.{Unchanged, Extended, start_route_cases}

abbrev pub sample_config : ManagerConfig
sample_config = record {
  dry_run = true;
  telethon_enabled = true;
  pair_timeout_seconds = 900;
  open_root =
      λ dry_run root. opened (record { env = sample_settings.env; world = empty_directory });
}

abbrev pub idle_manager : Manager
idle_manager = record { db = small_database; active = []; has_bridge = false }

abbrev calls : List ManagerCall
calls =
    start_call 1 none 10
    ∷ start_call 1 none 11
    ∷ message_call (record (message 1 gold_buy none) { channel_id = negsuc 1000 }) (λ known. none)
        (λ i. record { clock = clock_at 5; now = 100; later = 101 }) 12
    ∷ stop_call 1 13
    ∷ start_call 1 (some (codes "LISTENER_TELETHON_START_FAILED")) 14
    ∷ []

start_route_cases_example :
    let r = start_route sample_config 1 none 10 idle_manager in
    ((d : RouteDetail) × (root : Root) × (validate_start 1 small_database ≡ allowed d)
      × (sample_config.open_root true d.target.file_common_root ≡ opened root)
      × Extended sample_config idle_manager (build_runtime sample_config d root) r)
    ⊎ Unchanged sample_config idle_manager r
start_route_cases_example = start_route_cases sample_config 1 none 10 idle_manager

call_all-running_example :
    running (call_all sample_config calls idle_manager) 1
    ≡ abstract_run (answered sample_config calls idle_manager) (running idle_manager) 1
call_all-running_example = call_all-running sample_config calls idle_manager 1
