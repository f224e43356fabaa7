-- ===== src/Store/Commands.antt =====
-- dashboard_store.py: the commands that the dashboard leaves for the listener worker, and the row on
-- the worker's state. `R` is what a result is, before it becomes JSON.
pub mod Claims
pub mod Ordered
use basket_recovery_ea.Base.{
  ℕ, suc, Bool, true, false, Option, none, some, List, [], ◌∷◌, ◌++◌, if◌then◌else◌, ◌==◌, ◌||◌,
  take, select,
}
use basket_recovery_ea.Base.Text.{Text}

-- The values of `status`.
pub data CommandStatus : Type 0 where
  pending processing done failed : CommandStatus

-- `WORKER_COMMAND_…`, and any other text.
pub data CommandType : Type 0 where
  start_route_command stop_route_command worker_stop_command : CommandType
  other_command : Text → CommandType

module _ (R : Type 0) where
  -- A row of `listener_worker_commands`.
  pub record WorkerCommand : Type 0 where
    pub id : ℕ
    pub command_type : CommandType
    pub route_id : Option ℕ
    pub status : CommandStatus
    pub result : Option R
    pub created_at : ℕ
    pub processed_at : Option ℕ

  -- The table, with the id of the next row: ids grow, so that the rows stand in their order.
  pub record CommandTable : Type 0 where
    pub rows : List WorkerCommand
    pub next_id : ℕ

module _ {R : Type 0} where
  abbrev pub is_pending : WorkerCommand R → Bool
  is_pending c = elim c.status [ pending ↦ true | _ ↦ false ]

  -- `enqueue_listener_worker_command`, with the id that it returns.
  unfoldable pub enqueue_listener_worker_command :
      CommandType → Option ℕ → ℕ → CommandTable R → ℕ × CommandTable R
  enqueue_listener_worker_command command_type route_id now t = (
    t.next_id,
    record {
      rows =
          t.rows
          ++ record {
            id = t.next_id;
            command_type = command_type;
            route_id = route_id;
            status = pending;
            result = none;
            created_at = now;
            processed_at = none;
          }
            ∷ [];
      next_id = suc t.next_id;
    },
  )

  -- The command of that id is in the list.
  abbrev pub is_among : ℕ → List (WorkerCommand R) → Bool
  is_among i [] = false
  is_among i (c ∷ cs) = c.id == i || is_among i cs

  abbrev pub claim_row : ℕ → WorkerCommand R → WorkerCommand R
  claim_row now c = record c { status = processing; processed_at = some now }

  -- `UPDATE … WHERE id IN (…)`
  abbrev pub claim_rows :
      List (WorkerCommand R) → ℕ → List (WorkerCommand R) → List (WorkerCommand R)
  claim_rows claimed now [] = []
  claim_rows claimed now (c ∷ cs) =
      (if is_among c.id claimed then claim_row now c else c) ∷ claim_rows claimed now cs

  -- `SELECT … WHERE status = 'PENDING' ORDER BY id ASC LIMIT ?`
  unfoldable pub oldest_pending : ℕ → CommandTable R → List (WorkerCommand R)
  oldest_pending limit t = take limit (select is_pending t.rows)

  unfoldable pub claim_pending_worker_commands :
      ℕ → ℕ → CommandTable R → List (WorkerCommand R) × CommandTable R
  unfolding oldest_pending
  claim_pending_worker_commands limit now t =
      let claimed = oldest_pending limit t in
      (claimed, record t { rows = claim_rows claimed now t.rows })

  abbrev pub complete_row : CommandStatus → Option R → ℕ → WorkerCommand R → WorkerCommand R
  complete_row status result now c = record c {
    status = status;
    result = result;
    processed_at = some now;
  }

  abbrev pub complete_rows :
      ℕ → CommandStatus → Option R → ℕ → List (WorkerCommand R) → List (WorkerCommand R)
  complete_rows i status result now [] = []
  complete_rows i status result now (c ∷ cs) =
      (if c.id == i then complete_row status result now c else c)
      ∷ complete_rows i status result now cs

  unfoldable pub complete_worker_command :
      ℕ → CommandStatus → Option R → ℕ → CommandTable R → CommandTable R
  complete_worker_command i status result now t = record t {
    rows = complete_rows i status result now t.rows;
  }

  abbrev pub find_command : ℕ → List (WorkerCommand R) → Option (WorkerCommand R)
  find_command i [] = none
  find_command i (c ∷ cs) = if c.id == i then some c else find_command i cs

  -- `get_worker_command`
  unfoldable pub get_worker_command : ℕ → CommandTable R → Option (WorkerCommand R)
  get_worker_command i t = find_command i t.rows
