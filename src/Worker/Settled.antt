-- ===== src/Worker/Settled.antt =====
-- A command that a round of the worker has taken up is never taken up again.
use basket_recovery_ea.Base.{
  ℕ, ◌≡◌, sym, ◌∙◌, ap, subst, Bool, true, false, Option, none, some, List, [], ◌∷◌, ◌++◌, arith,
  inl, inr, Bool-cases,
}
use basket_recovery_ea.Base.Text.{Text}
use basket_recovery_ea.Store.Commands.{
  processing, done, failed, CommandType, WorkerCommand, CommandTable, is_pending, is_among,
  find_command, claim_pending_worker_commands, enqueue_listener_worker_command,
}
use basket_recovery_ea.Store.Commands.Claims.{
  status_found, claimed-pending, find-claim_rows, IsTable,
}
use basket_recovery_ea.Store.Commands.Ordered.{enqueue-IsTable, claim-IsTable, complete-IsTable}
use basket_recovery_ea.Listener.Manager.{ManagerConfig}
use basket_recovery_ea.Worker.{
  Worker, CommandResult, command_failed, Around, Dispatched, dispatch_command, finish_command,
  process_command, process_batch, claim, claim_limit, process_commands, maybe_heartbeat,
  is_worker_stop, sync_active_routes,
}
use basket_recovery_ea.Worker.Connection.{monitor_telethon_connection}
use basket_recovery_ea.Worker.Batch.{
  found, is_stop, dispatch-commands, batch-untouched, batch-abandons,
}
use basket_recovery_ea.Worker.Claims.{claimed}

among-tail :
    (i : ℕ) (before after : List (WorkerCommand CommandResult)) (stop : WorkerCommand CommandResult)
    → is_among i after ≡ true
    → is_among i (before ++ stop ∷ after) ≡ true
among-tail i [] after stop h = ground arith
among-tail i (c ∷ before) after stop h = ground (arith, among-tail i before after stop h)

-- What changes the worker or the table of commands.
pub data WorkerEvent : Type 0 where
  -- the dashboard leaves a command
  enqueue_event : CommandType → Option ℕ → ℕ → WorkerEvent
  -- the worker's loop
  commands_event : (ℕ → Around) → ℕ → WorkerEvent
  heartbeat_event : ℕ → ℕ → WorkerEvent
  monitor_event : Bool → Option Text → ℕ → WorkerEvent

module _ (config : ManagerConfig) where
  abbrev pub on_event : WorkerEvent → Worker → Worker
  on_event (enqueue_event k o now) w = record w {
    commands = (enqueue_listener_worker_command k o now w.commands).1;
  }
  on_event (commands_event around now) w = process_commands config around now w
  on_event (heartbeat_event monotonic now) w = maybe_heartbeat monotonic now w
  on_event (monitor_event is_connected hook now) w =
      monitor_telethon_connection config is_connected hook now w

  abbrev pub on_events : List WorkerEvent → Worker → Worker
  on_events [] w = w
  on_events (e ∷ es) w = on_events es (on_event e w)

  process-IsTable :
      (c : WorkerCommand CommandResult) (a : Around) (w : Worker)
      → IsTable w.commands
      → IsTable (process_command config c a w).commands
  unfolding process_command
  process-IsTable c a w h =
      by_result (dispatch_command config c.command_type c.route_id a w)
        (dispatch-commands config c.command_type c.route_id a w)
    where
      by_result :
          (d : Dispatched)
          → d.1.commands ≡ w.commands
          → IsTable (finish_command c.id a.now d).commands
      by_result (some r, u) e =
          complete-IsTable c.id done (some r) a.now u.commands (subst IsTable (sym e) h)
      by_result (none, u) e =
          complete-IsTable c.id failed (some command_failed) a.now u.commands
            (subst IsTable (sym e) h)

  batch-IsTable :
      (around : ℕ → Around) (cs : List (WorkerCommand CommandResult)) (w : Worker)
      → IsTable w.commands
      → IsTable (process_batch config around cs w).commands
  unfolding process_batch
  batch-IsTable around [] w h = h
  batch-IsTable around (c ∷ cs) w h =
      let k = process-IsTable c (around c.id) w h in
      elim (Bool-cases (is_worker_stop c.command_type)) [
        | inl e ↦ rw e k
        | inr e ↦ rw e (batch-IsTable around cs (process_command config c (around c.id) w) k)
      ]

  round-IsTable :
      (around : ℕ → Around) (now : ℕ) (w : Worker)
      → IsTable w.commands
      → IsTable (process_commands config around now w).commands
  unfolding process_commands
  round-IsTable around now w h =
      batch-IsTable around (claim_pending_worker_commands claim_limit now w.commands).0
        (claim now w) (claim-IsTable claim_limit now w.commands h)

  heartbeat-commands :
      (monotonic now : ℕ) (w : Worker) → (maybe_heartbeat monotonic now w).commands ≡ w.commands
  unfolding maybe_heartbeat sync_active_routes
  heartbeat-commands monotonic now w = ground arith

  monitor-commands :
      (b : Bool) (hook : Option Text) (now : ℕ) (w : Worker)
      → (monitor_telethon_connection config b hook now w).commands ≡ w.commands
  unfolding monitor_telethon_connection
  monitor-commands b hook now w = ground arith

  -- Every event keeps the ids growing.
  event-IsTable :
      (e : WorkerEvent) (w : Worker) → IsTable w.commands → IsTable (on_event e w).commands
  event-IsTable (enqueue_event k o now) w h = enqueue-IsTable k o now w.commands h
  event-IsTable (commands_event around now) w h = round-IsTable around now w h
  event-IsTable (heartbeat_event monotonic now) w h =
      subst IsTable (sym (heartbeat-commands monotonic now w)) h
  event-IsTable (monitor_event b hook now) w h =
      subst IsTable (sym (monitor-commands b hook now w)) h

  -- A command that is not pending is not claimed.
  unclaimed :
      (i : ℕ) (w : Worker) (c : WorkerCommand CommandResult)
      → IsTable w.commands
      → found i w ≡ some c
      → is_pending c ≡ false
      → is_among i (claimed w) ≡ false
  unclaimed i w c h e p = elim (Bool-cases (is_among i (claimed w))) [
    | inl there ↦ absurd (ground (arith, claimed-pending claim_limit i w.commands h there))
    | inr absent ↦ absent
  ]

  round-settled :
      (around : ℕ → Around) (now i : ℕ) (w : Worker) (c : WorkerCommand CommandResult)
      → IsTable w.commands
      → found i w ≡ some c
      → is_pending c ≡ false
      → found i (process_commands config around now w) ≡ some c
  unfolding process_commands claim_pending_worker_commands
  round-settled around now i w c h e p =
      let absent = unclaimed i w c h e p in
      batch-untouched config around i (claimed w) (claim now w) absent
      ∙ ground (arith, find-claim_rows i now (claimed w) w.commands.rows, absent, e)

  appended-found :
      (i : ℕ) (cs : List (WorkerCommand CommandResult)) (d c : WorkerCommand CommandResult)
      → find_command i cs ≡ some c
      → find_command i (cs ++ d ∷ []) ≡ some c
  appended-found i [] d c e = absurd (ground arith)
  appended-found i (b ∷ cs) d c e = ground (arith, appended-found i cs d c)

  event-settled :
      (e : WorkerEvent) (i : ℕ) (w : Worker) (c : WorkerCommand CommandResult)
      → IsTable w.commands
      → found i w ≡ some c
      → is_pending c ≡ false
      → found i (on_event e w) ≡ some c
  event-settled (enqueue_event k o now) i w c h e p =
      unfold enqueue_listener_worker_command in appended-found i w.commands.rows _ c e
  event-settled (commands_event around now) i w c h e p = round-settled around now i w c h e p
  event-settled (heartbeat_event monotonic now) i w c h e p =
      ap (λ (t : CommandTable CommandResult). find_command i t.rows)
        (heartbeat-commands monotonic now w)
      ∙ e
  event-settled (monitor_event b hook now) i w c h e p =
      ap (λ (t : CommandTable CommandResult). find_command i t.rows) (monitor-commands b hook now w)
      ∙ e

  -- With ids that grow along the table, a command that is not pending keeps its whole row,
  -- whatever commands are left, rounds are run, heartbeats are sent and connections are watched
  -- afterwards: no command is taken up twice.
  pub on_events_settled :
      (es : List WorkerEvent) (i : ℕ) (w : Worker) (c : WorkerCommand CommandResult)
      → IsTable w.commands
      → found i w ≡ some c
      → is_pending c ≡ false
      → found i (on_events es w) ≡ some c
  on_events_settled [] i w c h e p = e
  on_events_settled (ev ∷ es) i w c h e p =
      on_events_settled es i (on_event ev w) c (event-IsTable ev w h) (event-settled ev i w c h e p)
        p

  -- With ids that grow along the table, a command that a round claimed behind a command to stop
  -- the worker, and that has neither the id of that command nor of one before it, is left in
  -- processing by the round.
  pub process_commands_abandons :
      (around : ℕ → Around) (now i : ℕ) (w : Worker)
      (before after : List (WorkerCommand CommandResult)) (stop : WorkerCommand CommandResult)
      → claimed w ≡ before ++ stop ∷ after
      → is_stop stop ≡ true
      → is_among i after ≡ true
      → is_among i (before ++ stop ∷ []) ≡ false
      → IsTable w.commands
      → status_found (found i (process_commands config around now w)) ≡ some processing
  unfolding process_commands claim_pending_worker_commands
  process_commands_abandons around now i w before after stop split s there other h =
      let k = batch-abandons config around i before after stop (claim now w) s other in
      let a : is_among i (claimed w) ≡ true = rw split (among-tail i before after stop there) in
      let p = claimed-pending claim_limit i w.commands h a in
      let f = find-claim_rows i now (claimed w) w.commands.rows in
      rw split (ground (arith, k, f, p, a))
