-- ===== src/Worker/Claims.antt =====
-- The rounds of the worker: which commands a round finishes, and which are never taken up again.
use basket_recovery_ea.Base.{
  ℕ, zero, suc, ◌≡◌, true, is_some, List, [], ◌∷◌, arith, inl, inr, Bool-cases, All, take, select,
}
use basket_recovery_ea.Store.Commands.{
  WorkerCommand, is_pending, find_command, oldest_pending, claim_pending_worker_commands,
}
use basket_recovery_ea.Store.Commands.Claims.{find-claim_rows}
use basket_recovery_ea.Listener.Manager.{ManagerConfig}
use basket_recovery_ea.Worker.{Worker, CommandResult, Around, claim, claim_limit, process_commands}
use basket_recovery_ea.Worker.Batch.{found, is_finished, stops_last, batch-finishes}

abbrev pub claimed : Worker → List (WorkerCommand CommandResult)
claimed w = oldest_pending claim_limit w.commands

widened :
    (c : WorkerCommand CommandResult) (cs ds : List (WorkerCommand CommandResult))
    → All (λ d. is_some (find_command d.id cs) ≡ true) ds
    → All (λ d. is_some (find_command d.id (c ∷ cs)) ≡ true) ds
widened c cs [] h = tt
widened c cs (d ∷ ds) h = (ground (arith, h.0), widened c cs ds h.1)

there-itself :
    (cs : List (WorkerCommand CommandResult)) → All (λ c. is_some (find_command c.id cs) ≡ true) cs
there-itself [] = tt
there-itself (c ∷ cs) = (ground arith, widened c cs cs (there-itself cs))

All-select :
    (P : WorkerCommand CommandResult → Type 0) (cs : List (WorkerCommand CommandResult))
    → All P cs
    → All P (select is_pending cs)
All-select P [] h = tt
All-select P (c ∷ cs) h = elim (Bool-cases (is_pending c)) [
  | inl e ↦ rw e (h.0, All-select P cs h.1)
  | inr e ↦ rw e (All-select P cs h.1)
]

All-take :
    (P : WorkerCommand CommandResult → Type 0) (n : ℕ) (cs : List (WorkerCommand CommandResult))
    → All P cs
    → All P (take n cs)
All-take P zero cs h = tt
All-take P (suc n) [] h = tt
All-take P (suc n) (c ∷ cs) h = (h.0, All-take P n cs h.1)

claim-there :
    (now : ℕ) (w : Worker) (ds : List (WorkerCommand CommandResult))
    → All (λ d. is_some (found d.id w) ≡ true) ds
    → All (λ d. is_some (found d.id (claim now w)) ≡ true) ds
unfolding claim_pending_worker_commands
claim-there now w [] h = tt
claim-there now w (d ∷ ds) h = (
  ground (arith, h.0, find-claim_rows d.id now (claimed w) w.commands.rows),
  claim-there now w ds h.1,
)

module _ (config : ManagerConfig) where
  -- When no command of the batch but the last one stops the worker, a round of the worker leaves
  -- every command that it claimed done or failed.
  pub process_commands_finishes :
      (around : ℕ → Around) (now : ℕ) (w : Worker)
      → stops_last (claimed w) ≡ true
      → All
          (λ c. is_finished (found c.id (process_commands config around now w)) ≡ true)
          (claimed w)
  unfolding process_commands claim_pending_worker_commands
  process_commands_finishes around now w h =
      batch-finishes config around (claimed w) (claim now w) h (
        claim-there now w (claimed w) (
          unfold oldest_pending in
          All-take _ claim_limit _ (All-select _ w.commands.rows (there-itself w.commands.rows))))
