-- ===== src/Mt5/Conflicts.antt =====
-- mt5_target_service.py: which active targets are in conflict (`find_target_conflicts`).
pub mod Pairwise
use basket_recovery_ea.Base.{
  ℕ, Bool, true, false, not, ◌&&◌, Option, none, some, List, [], ◌∷◌, ◌++◌, if◌then◌else◌, select,
  any, ◌==◌,
}
use basket_recovery_ea.Base.Int.{ℤ, int_eq, pos}
use basket_recovery_ea.Base.Text.{Text, text_eq}
use basket_recovery_ea.Mt5.{
  TargetRow, is_filled, normalize_storage_path, expected_pair, account_server_pair,
}

-- The messages of the conflicts.
pub data Conflict : Type 0 where
  terminal_instance account_server_duplicate file_pair magic_number_taken : Conflict

abbrev pub conflict_eq : Conflict → Conflict → Bool
conflict_eq terminal_instance terminal_instance = true
conflict_eq account_server_duplicate account_server_duplicate = true
conflict_eq file_pair file_pair = true
conflict_eq magic_number_taken magic_number_taken = true
conflict_eq _ _ = false

abbrev pub pair_eq : Text × Text → Option (Text × Text) → Bool
pair_eq p none = false
pair_eq (login, server) (some (login', server')) = text_eq login' login && text_eq server' server

abbrev pub magic_eq : ℕ → Option ℕ → Bool
magic_eq n none = false
magic_eq n (some m) = m == n

abbrev pub first_some : Option (Text × Text) → Option (Text × Text) → Option (Text × Text)
first_some none other = other
first_some (some p) other = some p

abbrev pub when : Bool → Conflict → List Conflict
when true c = c ∷ []
when false c = []

abbrev pub others : TargetRow → List TargetRow → List TargetRow
others row active = select (λ item. not (int_eq item.id row.id)) active

abbrev pub active_rows : List TargetRow → List TargetRow
active_rows targets = select (λ row. row.is_enabled) targets

abbrev pub find_id : ℤ → List TargetRow → Option TargetRow
find_id i [] = none
find_id i (row ∷ rows) = if int_eq row.id i then some row else find_id i rows

abbrev pub deduped : List Conflict → List Conflict
deduped [] = []
deduped (c ∷ cs) = c ∷ select (λ d. not (conflict_eq d c)) (deduped cs)

module _ (resolve : Text → Option Text) where
  abbrev path : Text → Text
  path t = normalize_storage_path resolve t

  -- The tests of one row against another.
  unfoldable pub same_instance : TargetRow → TargetRow → Bool
  unfolding normalize_storage_path text_eq
  same_instance row other =
      is_filled (path row.terminal_data_path)
      && text_eq (path row.terminal_data_path) (path other.terminal_data_path)

  abbrev matches_pair : Option (Text × Text) → TargetRow → Bool
  matches_pair none other = false
  matches_pair (some p) other =
      pair_eq p (first_some (account_server_pair other) (expected_pair other))

  unfoldable pub same_account : TargetRow → TargetRow → Bool
  unfolding expected_pair account_server_pair text_eq
  same_account row other = matches_pair (expected_pair row) other

  unfoldable pub same_files : TargetRow → TargetRow → Bool
  unfolding normalize_storage_path text_eq
  same_files row other =
      is_filled (path row.file_common_root)
      && text_eq (path row.file_common_root) (path other.file_common_root)
      && is_filled row.seed_filename
      && is_filled row.details_filename
      && text_eq row.seed_filename other.seed_filename
      && text_eq row.details_filename other.details_filename

  unfoldable pub same_magic : TargetRow → TargetRow → Bool
  same_magic row other = elim row.magic_number [
    | none ↦ false
    | some n ↦ magic_eq n other.magic_number
  ]

  -- The conflicts of one row with the other active ones.
  unfoldable pub row_conflicts : List TargetRow → TargetRow → List Conflict
  unfolding same_instance same_account same_files same_magic
  row_conflicts active row =
      let rest = others row active in
      when (any (same_instance row) rest) terminal_instance
      ++ when (any (same_account row) rest) account_server_duplicate
      ++ when (any (same_files row) rest) file_pair
      ++ when (any (same_magic row) rest) magic_number_taken

  abbrev all_conflicts : List TargetRow → List TargetRow → List Conflict
  all_conflicts active [] = []
  all_conflicts active (row ∷ rows) = row_conflicts active row ++ all_conflicts active rows

  abbrev pub of_current : List TargetRow → Option TargetRow → List Conflict
  of_current active none = []
  of_current active (some row) = deduped (row_conflicts active row)

  -- `find_target_conflicts`: of all active targets, or of one of them. The id 0, which no row has,
  -- finds none.
  unfoldable pub find_target_conflicts : List TargetRow → Option ℤ → List Conflict
  unfolding row_conflicts
  find_target_conflicts targets none =
      let active = active_rows targets in deduped (all_conflicts active active)
  find_target_conflicts targets (some i) =
      let active = active_rows targets in
      of_current active (if int_eq i (pos 0) then none else find_id i active)
