-- ===== src/Worker/Tests.antt =====
-- Rounds of the worker on small tables of commands.
use basket_recovery_ea.Base.{ℕ, refl, ◌≡◌, true, false, none, some, List, [], ◌∷◌, arith}
use basket_recovery_ea.Store.Commands.{
  CommandStatus, pending, processing, done, CommandType, start_route_command, stop_route_command,
  worker_stop_command, WorkerCommand, oldest_pending,
}
use basket_recovery_ea.Store.Commands.Claims.{status_found}
use basket_recovery_ea.Base.{Option}
use basket_recovery_ea.Listener.Manager.Tests.{sample_config, idle_manager}
use basket_recovery_ea.Worker.{Worker, connected, CommandResult, Around, process_commands}
use basket_recovery_ea.Worker.Batch.{found, AllFinished}
use basket_recovery_ea.Worker.Claims.{claimed, process_commands_finishes}
use basket_recovery_ea.Worker.Settled.{
  WorkerEvent, enqueue_event, commands_event, heartbeat_event, on_events, on_events_settled,
  process_commands_abandons,
}

abbrev command : ℕ → CommandType → Option ℕ → CommandStatus → WorkerCommand CommandResult
command i command_type route_id status = record {
  id = i;
  command_type = command_type;
  route_id = route_id;
  status = status;
  result = none;
  created_at = 0;
  processed_at = none;
}

abbrev worker_on : List (WorkerCommand CommandResult) → Worker
worker_on rows = record {
  manager = idle_manager;
  commands = record { rows = rows; next_id = 9 };
  worker_state = record {
    state = connected;
    pid = some 1;
    started_at = some 0;
    last_heartbeat_at = some 0;
    reconnect_count = 0;
    active_route_count = 0;
    active_route_ids = [];
    safe_last_error = none;
    dry_run = true;
    updated_at = 0;
  };
  stop_requested = false;
  reconnect_delay = 2;
  last_heartbeat_at = 0;
}

abbrev around : ℕ → Around
around i = record { hook = none; now = 10 }

abbrev first : WorkerCommand CommandResult
first = command 1 start_route_command (some 1) pending

abbrev stop : WorkerCommand CommandResult
stop = command 2 worker_stop_command none pending

abbrev last : WorkerCommand CommandResult
last = command 3 stop_route_command (some 1) pending

abbrev finished : WorkerCommand CommandResult
finished = command 1 start_route_command (some 1) done

process_commands_finishes_example :
    AllFinished
      (claimed (worker_on (first ∷ stop ∷ [])))
      (process_commands sample_config around 10 (worker_on (first ∷ stop ∷ [])))
unfolding oldest_pending
process_commands_finishes_example =
    process_commands_finishes sample_config around 10 (worker_on (first ∷ stop ∷ [])) refl

process_commands_abandons_example :
    status_found
      (found 3 (process_commands sample_config around 10 (worker_on (first ∷ stop ∷ last ∷ []))))
    ≡ some processing
unfolding oldest_pending
process_commands_abandons_example =
    process_commands_abandons sample_config around 10 3 (worker_on (first ∷ stop ∷ last ∷ []))
      (first ∷ []) (last ∷ []) stop refl refl refl refl
      (
        ((omega arith, (omega arith, tt)), ((omega arith, tt), (tt, tt))),
        (omega arith, (omega arith, (omega arith, tt))),
      )

abbrev events : List WorkerEvent
events =
    enqueue_event worker_stop_command none 11
    ∷ commands_event around 12
    ∷ heartbeat_event 20 13
    ∷ commands_event around 14
    ∷ []

on_events_settled_example :
    found 1 (on_events sample_config events (worker_on (finished ∷ []))) ≡ some finished
on_events_settled_example =
    on_events_settled sample_config events 1 (worker_on (finished ∷ [])) finished
      ((tt, tt), (omega arith, tt)) refl refl
