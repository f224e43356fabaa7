-- ===== src/Store/Commands/Claims.antt =====
-- What the operations on the worker's commands do to one command.
use basket_recovery_ea.Base.{
  ℕ, zero, suc, ◌≡◌, ◌<◌, ◌≤◌, refl, true, false, Option, none, some, List, [], ◌∷◌, arith, ◌==◌,
  if◌then◌else◌, take, select, All,
}
use basket_recovery_ea.Store.Commands.{
  CommandStatus, pending, WorkerCommand, CommandTable, is_pending, is_among, claim_row, claim_rows,
  oldest_pending, complete_row, complete_rows, find_command,
}

module _ {R : Type 0} where
  abbrev pub Above : ℕ → WorkerCommand R → Type 0
  Above i c = i < c.id

  -- The ids grow along the list.
  abbrev pub IsOrdered : List (WorkerCommand R) → Type 0
  IsOrdered [] = Unit
  IsOrdered (c ∷ cs) = All (Above c.id) cs × IsOrdered cs

  abbrev pub Below : ℕ → WorkerCommand R → Type 0
  Below i c = c.id < i

  abbrev pub IsTable : CommandTable R → Type 0
  IsTable t = IsOrdered t.rows × All (Below t.next_id) t.rows

  -- The status that a look-up finds.
  abbrev pub status_found : Option (WorkerCommand R) → Option CommandStatus
  status_found none = none
  status_found (some c) = some c.status

  abbrev pub map_found :
      (WorkerCommand R → WorkerCommand R) → Option (WorkerCommand R) → Option (WorkerCommand R)
  map_found f none = none
  map_found f (some c) = some (f c)

  is_among-Above :
      (i j : ℕ) (cs : List (WorkerCommand R))
      → All (Above i) cs
      → j ≤ i
      → is_among j (select is_pending cs) ≡ false
  is_among-Above i j [] h le = refl
  is_among-Above i j (c ∷ cs) h le = ground (arith, is_among-Above i j cs, h.0, h.1)

  is_among-take :
      (i n : ℕ) (cs : List (WorkerCommand R)) → is_among i (take n cs) ≡ true → is_among i cs ≡ true
  is_among-take i zero cs h = absurd (ground arith)
  is_among-take i (suc n) [] h = absurd (ground arith)
  is_among-take i (suc n) (c ∷ cs) h = ground (arith, is_among-take i n cs)

  select-pending :
      (i : ℕ) (cs : List (WorkerCommand R))
      → IsOrdered cs
      → is_among i (select is_pending cs) ≡ true
      → status_found (find_command i cs) ≡ some pending
  select-pending i [] o h = absurd (ground arith)
  select-pending i (c ∷ cs) o h = ground (arith, select-pending i cs, is_among-Above c.id i cs o.0)

  -- A claimed command was pending.
  pub claimed-pending :
      (limit i : ℕ) (t : CommandTable R)
      → IsTable t
      → is_among i (oldest_pending limit t) ≡ true
      → status_found (find_command i t.rows) ≡ some pending
  unfolding oldest_pending
  claimed-pending limit i t o h = select-pending i t.rows o.0 (is_among-take i limit _ h)

  pub find-claim_rows :
      (i now : ℕ) (claimed cs : List (WorkerCommand R))
      → find_command i (claim_rows claimed now cs) ≡ (
          if is_among i claimed
          then map_found (claim_row now) (find_command i cs)
          else find_command i cs)
  find-claim_rows i now claimed [] = ground arith
  find-claim_rows i now claimed (c ∷ cs) = ground (arith, find-claim_rows i now claimed cs)

  pub find-complete_rows :
      (i j now : ℕ) (status : CommandStatus) (result : Option R) (cs : List (WorkerCommand R))
      → find_command i (complete_rows j status result now cs) ≡ (
          if i == j
          then map_found (complete_row status result now) (find_command i cs)
          else find_command i cs)
  find-complete_rows i j now status result [] = ground arith
  find-complete_rows i j now status result (c ∷ cs) =
      ground (arith, find-complete_rows i j now status result cs)
