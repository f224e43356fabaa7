-- ===== src/Worker/Batch.antt =====
-- What a batch of commands leaves in the table of commands.
use basket_recovery_ea.Base.{
  ℕ, ◌≡◌, refl, sym, subst, Bool, true, false, not, ◌&&◌, Option, none, some, is_some, List, [],
  ◌∷◌, ◌++◌, arith, inl, inr, Bool-cases, ◌==◌, All,
}
use basket_recovery_ea.Store.Commands.{
  done, failed, CommandType, start_route_command, stop_route_command, worker_stop_command,
  other_command, WorkerCommand, is_among, find_command, complete_worker_command,
}
use basket_recovery_ea.Store.Commands.Claims.{find-complete_rows}
use basket_recovery_ea.Listener.Manager.{
  ManagerConfig, Manager, Response, raised_store, raised_os, listener_started, start_refused,
  target_root_invalid, hook_failed, listener_stopped,
}
use basket_recovery_ea.Worker.{
  Worker, CommandResult, command_failed, Around, Dispatched, after_call, dispatch_command,
  finish_command, is_worker_stop, process_command, process_batch, sync_active_routes,
}

abbrev pub found : ℕ → Worker → Option (WorkerCommand CommandResult)
found i w = find_command i w.commands.rows

-- The row is there and its command is done or has failed.
abbrev pub is_finished : Option (WorkerCommand CommandResult) → Bool
is_finished none = false
is_finished (some c) = elim c.status [ done ↦ true | failed ↦ true | _ ↦ false ]

is_finished-there :
    (o : Option (WorkerCommand CommandResult)) → is_finished o ≡ true → is_some o ≡ true
is_finished-there none h = absurd (ground arith)
is_finished-there (some c) h = refl

abbrev pub is_stop : WorkerCommand CommandResult → Bool
is_stop c = is_worker_stop c.command_type

-- No command but the last one stops the worker.
abbrev pub stops_last : List (WorkerCommand CommandResult) → Bool
stops_last [] = true
stops_last (c ∷ []) = true
stops_last (c ∷ d ∷ cs) = not (is_stop c) && stops_last (d ∷ cs)

abbrev pub AllFinished : List (WorkerCommand CommandResult) → Worker → Type 0
AllFinished cs w = All (λ c. is_finished (found c.id w) ≡ true) cs

after_call-commands :
    (now : ℕ) (w : Worker) (r : Response × Manager) → (after_call now w r).1.commands ≡ w.commands
unfolding sync_active_routes
after_call-commands now w (raised_store e, m) = refl
after_call-commands now w (raised_os, m) = refl
after_call-commands now w (listener_started a s, m) = refl
after_call-commands now w (start_refused e, m) = refl
after_call-commands now w (target_root_invalid, m) = refl
after_call-commands now w (hook_failed e, m) = refl
after_call-commands now w (listener_stopped a, m) = refl

module _ (config : ManagerConfig) where
  pub dispatch-commands :
      (k : CommandType) (o : Option ℕ) (a : Around) (w : Worker)
      → (dispatch_command config k o a w).1.commands ≡ w.commands
  unfolding dispatch_command
  dispatch-commands start_route_command none a w = refl
  dispatch-commands start_route_command (some i) a w = after_call-commands a.now w _
  dispatch-commands stop_route_command none a w = refl
  dispatch-commands stop_route_command (some i) a w = after_call-commands a.now w _
  dispatch-commands worker_stop_command o a w = refl
  dispatch-commands (other_command name) o a w = refl

  process-untouched :
      (i : ℕ) (c : WorkerCommand CommandResult) (a : Around) (w : Worker)
      → (i == c.id) ≡ false
      → found i (process_command config c a w) ≡ found i w
  unfolding process_command complete_worker_command
  process-untouched i c a w h =
      by_result (dispatch_command config c.command_type c.route_id a w)
        (dispatch-commands c.command_type c.route_id a w)
    where
      by_result :
          (d : Dispatched)
          → d.1.commands ≡ w.commands
          → found i (finish_command c.id a.now d) ≡ found i w
      by_result (some r, u) e =
          ground (arith, h, find-complete_rows i c.id a.now done (some r) u.commands.rows, e)
      by_result (none, u) e = ground (
        arith,
        h,
        find-complete_rows i c.id a.now failed (some command_failed) u.commands.rows,
        e,
      )

  process-finishes :
      (c : WorkerCommand CommandResult) (a : Around) (w : Worker)
      → is_some (found c.id w) ≡ true
      → is_finished (found c.id (process_command config c a w)) ≡ true
  unfolding process_command complete_worker_command
  process-finishes c a w h =
      by_result (dispatch_command config c.command_type c.route_id a w)
        (dispatch-commands c.command_type c.route_id a w)
    where
      by_result :
          (d : Dispatched)
          → d.1.commands ≡ w.commands
          → is_finished (found c.id (finish_command c.id a.now d)) ≡ true
      by_result (some r, u) e =
          ground (arith, h, find-complete_rows c.id c.id a.now done (some r) u.commands.rows, e)
      by_result (none, u) e = ground (
        arith,
        h,
        find-complete_rows c.id c.id a.now failed (some command_failed) u.commands.rows,
        e,
      )

  -- A command that is finished stays so.
  process-stays :
      (i : ℕ) (c : WorkerCommand CommandResult) (a : Around) (w : Worker)
      → is_finished (found i w) ≡ true
      → is_finished (found i (process_command config c a w)) ≡ true
  process-stays i c a w h = elim (Bool-cases (i == c.id)) [
    | inl same ↦
        let k : i ≡ c.id = ground arith in
        rw k (process-finishes c a w (is_finished-there (found c.id w) (rw k at h)))
    | inr other ↦ rw (process-untouched i c a w other) h
  ]

  batch-stays :
      (around : ℕ → Around) (i : ℕ) (cs : List (WorkerCommand CommandResult)) (w : Worker)
      → is_finished (found i w) ≡ true
      → is_finished (found i (process_batch config around cs w)) ≡ true
  unfolding process_batch
  batch-stays around i [] w h = h
  batch-stays around i (c ∷ cs) w h =
      let k = process-stays i c (around c.id) w h in
      ground (arith, k, batch-stays around i cs (process_command config c (around c.id) w) k)

  pub batch-untouched :
      (around : ℕ → Around) (i : ℕ) (cs : List (WorkerCommand CommandResult)) (w : Worker)
      → is_among i cs ≡ false
      → found i (process_batch config around cs w) ≡ found i w
  unfolding process_batch
  batch-untouched around i [] w h = refl
  batch-untouched around i (c ∷ cs) w h =
      let w' = process_command config c (around c.id) w in
      let k : (i == c.id) ≡ false = ground arith in
      ground (
        arith,
        process-untouched i c (around c.id) w k,
        batch-untouched around i cs w' (ground arith),
      )

  process-there :
      (i : ℕ) (c : WorkerCommand CommandResult) (a : Around) (w : Worker)
      → is_some (found i w) ≡ true
      → is_some (found i (process_command config c a w)) ≡ true
  process-there i c a w h = elim (Bool-cases (i == c.id)) [
    | inl same ↦
        let k : i ≡ c.id = ground arith in
        is_finished-there (found i (process_command config c a w))
          (rw k (process-finishes c a w (rw k at h)))
    | inr other ↦ rw (process-untouched i c a w other) h
  ]

  all-there :
      (c : WorkerCommand CommandResult) (a : Around) (w : Worker)
      (cs : List (WorkerCommand CommandResult))
      → All (λ d. is_some (found d.id w) ≡ true) cs
      → All (λ d. is_some (found d.id (process_command config c a w)) ≡ true) cs
  all-there c a w [] h = tt
  all-there c a w (e ∷ cs) h = (process-there e.id c a w h.0, all-there c a w cs h.1)

  batch-next :
      (around : ℕ → Around) (c : WorkerCommand CommandResult)
      (cs : List (WorkerCommand CommandResult)) (w : Worker)
      → is_stop c ≡ false
      → process_batch config around (c ∷ cs) w
        ≡ process_batch config around cs (process_command config c (around c.id) w)
  unfolding process_batch
  batch-next around c cs w h = rw h refl

  batch-one :
      (around : ℕ → Around) (c : WorkerCommand CommandResult) (w : Worker)
      → is_some (found c.id w) ≡ true
      → is_finished (found c.id (process_batch config around (c ∷ []) w)) ≡ true
  unfolding process_batch
  batch-one around c w h = ground (arith, process-finishes c (around c.id) w h)

  pub batch-finishes :
      (around : ℕ → Around) (cs : List (WorkerCommand CommandResult)) (w : Worker)
      → stops_last cs ≡ true
      → All (λ c. is_some (found c.id w) ≡ true) cs
      → AllFinished cs (process_batch config around cs w)
  batch-finishes around [] w s h = tt
  batch-finishes around (c ∷ []) w s h = (batch-one around c w h.0, tt)
  batch-finishes around (c ∷ d ∷ cs) w s h =
      let w' = process_command config c (around c.id) w in
      let k = process-finishes c (around c.id) w h.0 in
      let r =
        batch-finishes around (d ∷ cs) w' (ground arith)
          (all-there c (around c.id) w (d ∷ cs) h.1) in
      let n = batch-next around c (d ∷ cs) w (ground arith) in
      subst (λ u. AllFinished (c ∷ d ∷ cs) u) (sym n) (batch-stays around c.id (d ∷ cs) w' k, r)

  -- What follows a command to stop the worker is left as it is.
  pub batch-abandons :
      (around : ℕ → Around) (i : ℕ) (before after : List (WorkerCommand CommandResult))
      (stop : WorkerCommand CommandResult) (w : Worker)
      → is_stop stop ≡ true
      → is_among i (before ++ stop ∷ []) ≡ false
      → found i (process_batch config around (before ++ stop ∷ after) w) ≡ found i w
  unfolding process_batch
  batch-abandons around i [] after stop w s h =
      ground (arith, process-untouched i stop (around stop.id) w (ground arith))
  batch-abandons around i (c ∷ before) after stop w s h =
      let w' = process_command config c (around c.id) w in
      ground (
        arith,
        process-untouched i c (around c.id) w (ground arith),
        batch-abandons around i before after stop w' s (ground arith),
      )
