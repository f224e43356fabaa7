-- ===== src/Store/Commands/Ordered.antt =====
-- The operations on the worker's commands keep the ids growing along the table.
use basket_recovery_ea.Base.{
  ℕ, suc, ◌<◌, Option, List, [], ◌∷◌, ◌++◌, arith, All, All-append, inl, inr, Bool-cases, ◌==◌,
}
use basket_recovery_ea.Store.Commands.{
  CommandStatus, CommandType, WorkerCommand, CommandTable, enqueue_listener_worker_command,
  claim_rows, claim_pending_worker_commands, complete_rows, is_among, complete_worker_command,
}
use basket_recovery_ea.Store.Commands.Claims.{Above, Below, IsOrdered, IsTable}

module _ {R : Type 0} where
  weaken : (i : ℕ) (cs : List (WorkerCommand R)) → All (Below i) cs → All (Below (suc i)) cs
  weaken i [] h = tt
  weaken i (c ∷ cs) h = (omega (arith, h.0), weaken i cs h.1)

  append-IsOrdered :
      (cs : List (WorkerCommand R)) (c : WorkerCommand R)
      → All (Below c.id) cs
      → IsOrdered cs
      → IsOrdered (cs ++ c ∷ [])
  append-IsOrdered [] c h o = (tt, tt)
  append-IsOrdered (d ∷ cs) c h o =
      (All-append (Above d.id) cs (c ∷ []) o.0 (h.0, tt), append-IsOrdered cs c h.1 o.1)

  pub enqueue-IsTable :
      (command_type : CommandType) (route_id : Option ℕ) (now : ℕ) (t : CommandTable R)
      → IsTable t
      → IsTable (enqueue_listener_worker_command command_type route_id now t).1
  unfolding enqueue_listener_worker_command
  enqueue-IsTable command_type route_id now t h = (
    append-IsOrdered t.rows _ h.1 h.0,
    All-append (Below (suc t.next_id)) t.rows (_ ∷ []) (weaken t.next_id t.rows h.1)
        (omega arith, tt),
  )

  All-claimed :
      (P : ℕ → Type 0) (claimed : List (WorkerCommand R)) (now : ℕ) (cs : List (WorkerCommand R))
      → All (λ c. P c.id) cs
      → All (λ c. P c.id) (claim_rows claimed now cs)
  All-claimed P claimed now [] h = tt
  All-claimed P claimed now (c ∷ cs) h = (ground (arith, h.0), All-claimed P claimed now cs h.1)

  All-completed :
      (P : ℕ → Type 0) (i : ℕ) (status : CommandStatus) (result : Option R) (now : ℕ)
      (cs : List (WorkerCommand R))
      → All (λ c. P c.id) cs
      → All (λ c. P c.id) (complete_rows i status result now cs)
  All-completed P i status result now [] h = tt
  All-completed P i status result now (c ∷ cs) h =
      (ground (arith, h.0), All-completed P i status result now cs h.1)

  claimed-IsOrdered :
      (claimed : List (WorkerCommand R)) (now : ℕ) (cs : List (WorkerCommand R))
      → IsOrdered cs
      → IsOrdered (claim_rows claimed now cs)
  claimed-IsOrdered claimed now [] o = tt
  claimed-IsOrdered claimed now (c ∷ cs) o =
      let k = All-claimed (λ j. c.id < j) claimed now cs o.0 in
      (
        elim (Bool-cases (is_among c.id claimed)) [ inl e ↦ rw e k | inr e ↦ rw e k ],
        claimed-IsOrdered claimed now cs o.1,
      )

  completed-IsOrdered :
      (i : ℕ) (status : CommandStatus) (result : Option R) (now : ℕ) (cs : List (WorkerCommand R))
      → IsOrdered cs
      → IsOrdered (complete_rows i status result now cs)
  completed-IsOrdered i status result now [] o = tt
  completed-IsOrdered i status result now (c ∷ cs) o =
      let k = All-completed (λ j. c.id < j) i status result now cs o.0 in
      (
        elim (Bool-cases (c.id == i)) [ inl e ↦ rw e k | inr e ↦ rw e k ],
        completed-IsOrdered i status result now cs o.1,
      )

  pub claim-IsTable :
      (limit now : ℕ) (t : CommandTable R)
      → IsTable t
      → IsTable (claim_pending_worker_commands limit now t).1
  unfolding claim_pending_worker_commands
  claim-IsTable limit now t h =
      (claimed-IsOrdered _ now t.rows h.0, All-claimed (λ i. i < t.next_id) _ now t.rows h.1)

  pub complete-IsTable :
      (i : ℕ) (status : CommandStatus) (result : Option R) (now : ℕ) (t : CommandTable R)
      → IsTable t
      → IsTable (complete_worker_command i status result now t)
  unfolding complete_worker_command
  complete-IsTable i status result now t h = (
    completed-IsOrdered i status result now t.rows h.0,
    All-completed (λ j. j < t.next_id) i status result now t.rows h.1,
  )
