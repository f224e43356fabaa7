-- ===== src/Worker.antt =====
-- integrations/telegram/listener_worker_runtime.py: the loop of the listener worker, on the manager
-- of the listeners and on the commands that the dashboard leaves for it.
pub mod Connection
pub mod Batch
pub mod Claims
pub mod Settled
mod Tests
use basket_recovery_ea.Base.{
  ℕ, ◌-◌, Bool, true, false, Option, none, some, List, [], ◌∷◌, if◌then◌else◌, ltb, ◌==◌, length,
}
use basket_recovery_ea.Base.Text.{Text}
use basket_recovery_ea.Store.Commands.{
  CommandStatus, done, failed, CommandType, start_route_command, stop_route_command,
  worker_stop_command, other_command, WorkerCommand, CommandTable, claim_pending_worker_commands,
  complete_worker_command,
}
use basket_recovery_ea.Listener.Manager.{
  ManagerConfig, Manager, Response, raised_store, raised_os, start_route, stop_route,
}
use basket_recovery_ea.Listener.Delivery.{sorted_ids}

-- `WORKER_…`
pub data WorkerStatus : Type 0 where
  starting connecting connected reconnecting stopping stopped error : WorkerStatus

-- The row of `listener_worker_state`, which the database creates.
pub record WorkerState : Type 0 where
  pub state : WorkerStatus
  pub pid : Option ℕ
  pub started_at : Option ℕ
  pub last_heartbeat_at : Option ℕ
  pub reconnect_count : ℕ
  pub active_route_count : ℕ
  pub active_route_ids : List ℕ
  pub safe_last_error : Option Text
  pub dry_run : Bool
  pub updated_at : ℕ

-- What a command's result says.
pub data CommandResult : Type 0 where
  responded : Response → CommandResult
  worker_stopped command_failed : CommandResult

-- `ListenerWorkerRuntime` with its database; delays are seconds.
pub record Worker : Type 0 where
  pub manager : Manager
  pub commands : CommandTable CommandResult
  pub worker_state : WorkerState
  pub stop_requested : Bool
  pub reconnect_delay : ℕ
  pub last_heartbeat_at : ℕ

abbrev pub heartbeat_interval_seconds : ℕ
heartbeat_interval_seconds = 10

abbrev pub reconnect_base_delay_seconds : ℕ
reconnect_base_delay_seconds = 2

abbrev pub reconnect_max_delay_seconds : ℕ
reconnect_max_delay_seconds = 60

abbrev pub claim_limit : ℕ
claim_limit = 20

-- The ids without repetitions, which stand side by side in a sorted list.
abbrev pub without_repeats : List ℕ → List ℕ
without_repeats [] = []
without_repeats (i ∷ []) = i ∷ []
without_repeats (i ∷ j ∷ rest) =
    let tail = without_repeats (j ∷ rest) in if i == j then tail else i ∷ tail

-- `upsert_listener_worker_state`
abbrev pub change_worker_state : (WorkerState → WorkerState) → ℕ → Worker → Worker
change_worker_state change now w = record w {
  worker_state = record (change w.worker_state) { updated_at = now };
}

abbrev pub with_ids : List ℕ → WorkerState → WorkerState
with_ids ids s =
    let normalized = without_repeats ids in
    record s { active_route_ids = normalized; active_route_count = length normalized }

-- `_sync_active_routes`
unfoldable pub sync_active_routes : ℕ → Worker → Worker
sync_active_routes now w = change_worker_state (with_ids (sorted_ids w.manager.active)) now w

-- The result of a command, or an exception.
abbrev pub Dispatched : Type 0
Dispatched = Option CommandResult × Worker

-- An exception of the manager skips the synchronisation.
abbrev pub after_call : ℕ → Worker → Response × Manager → Dispatched
after_call now w (raised_store e, m) = (none, record w { manager = m })
after_call now w (raised_os, m) = (none, record w { manager = m })
after_call now w (r, m) = (some (responded r), sync_active_routes now (record w { manager = m }))

abbrev pub is_worker_stop : CommandType → Bool
is_worker_stop worker_stop_command = true
is_worker_stop _ = false

abbrev pub complete : ℕ → CommandStatus → CommandResult → ℕ → Worker → Worker
complete i status result now w = record w {
  commands = complete_worker_command i status (some result) now w.commands;
}

abbrev pub finish_command : ℕ → ℕ → Dispatched → Worker
finish_command i now (some result, w) = complete i done result now w
finish_command i now (none, w) = complete i failed command_failed now w

abbrev pub claim : ℕ → Worker → Worker
claim now w = record w { commands = (claim_pending_worker_commands claim_limit now w.commands).1 }

-- What a command meets: the hook's result, and the clock.
pub record Around : Type 0 where
  pub hook : Option Text
  pub now : ℕ

module _ (config : ManagerConfig) where
  unfoldable pub dispatch_command : CommandType → Option ℕ → Around → Worker → Dispatched
  unfolding start_route stop_route sync_active_routes
  dispatch_command start_route_command none around w = (none, w)
  dispatch_command start_route_command (some i) around w =
      after_call around.now w (start_route config i around.hook around.now w.manager)
  dispatch_command stop_route_command none around w = (none, w)
  dispatch_command stop_route_command (some i) around w =
      after_call around.now w (stop_route i around.now w.manager)
  dispatch_command worker_stop_command route_id around w = (some worker_stopped, w)
  dispatch_command (other_command name) route_id around w = (none, w)

  -- A command of the batch.
  unfoldable pub process_command : WorkerCommand CommandResult → Around → Worker → Worker
  unfolding dispatch_command complete_worker_command
  process_command c around w =
      finish_command c.id around.now (dispatch_command c.command_type c.route_id around w)

  -- The loop of `_process_commands`: a command to stop the worker ends it.
  unfoldable pub process_batch : (ℕ → Around) → List (WorkerCommand CommandResult) → Worker → Worker
  unfolding process_command
  process_batch around [] w = w
  process_batch around (c ∷ cs) w =
      let w' = process_command c (around c.id) w in
      let rest = process_batch around cs w' in
      if is_worker_stop c.command_type then record w' { stop_requested = true } else rest

  unfoldable pub process_commands : (ℕ → Around) → ℕ → Worker → Worker
  unfolding claim_pending_worker_commands process_batch
  process_commands around now w =
      process_batch around (claim_pending_worker_commands claim_limit now w.commands).0
        (claim now w)

-- `_publish_state`, with the fields that its callers add.
abbrev pub publish_state : WorkerStatus → (WorkerState → WorkerState) → ℕ → Worker → Worker
publish_state status fields now w =
    change_worker_state (λ s. fields (record s { state = status })) now w

abbrev pub without_error : WorkerState → WorkerState
without_error s = record s { safe_last_error = none }

abbrev pub with_error : Text → WorkerState → WorkerState
with_error text s = record s { safe_last_error = some text }

abbrev pub is_resting : WorkerStatus → Bool
is_resting stopping = true
is_resting stopped = true
is_resting error = true
is_resting _ = false

-- `_maybe_heartbeat`; the manager's clock is `monotonic`.
unfoldable pub maybe_heartbeat : ℕ → ℕ → Worker → Worker
unfolding sync_active_routes
maybe_heartbeat monotonic now w =
    if ltb (monotonic - w.last_heartbeat_at) heartbeat_interval_seconds
    then w
    else (let w' = record w { last_heartbeat_at = monotonic } in
        if is_resting w.worker_state.state
        then w'
        else change_worker_state (λ s. record s { last_heartbeat_at = some now }) now
            (sync_active_routes now w'))
