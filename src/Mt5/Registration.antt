-- ===== src/Mt5/Registration.antt =====
-- mt5_target_service.py: the registration of targets, their filters and pages, and the targets that
-- a discovery of terminals leads to.
pub mod Laws
use basket_recovery_ea.Base.{
  ℕ, ◌-◌, ◌*◌, Bool, true, false, not, ◌&&◌, ◌||◌, Option, none, some, List, [], ◌∷◌, ◌++◌,
  if◌then◌else◌, take, drop, select, length, leb,
}
use basket_recovery_ea.Base.Int.{ℤ, int_eq, negsuc}
use basket_recovery_ea.Base.Text.{Text, codes, text_eq, strip, lower, upper, contains}
use basket_recovery_ea.Mt5.{
  TargetRow, is_empty, is_filled, or_text, is_expected_type, normalize_storage_path, expected_pair,
  account_server_pair, build_terminal_instance_key,
}
use basket_recovery_ea.Mt5.Conflicts.{
  Conflict, terminal_instance, account_server_duplicate, find_target_conflicts, active_rows,
  first_some,
}

-- `DashboardValidationError` with its messages.
pub data RegistrationError : Type 0 where
  blocked_by : Conflict → RegistrationError
  display_name_required terminal_data_path_required bad_account_type : RegistrationError
  cannot_add ambiguous_discovery : RegistrationError
  bad_filename same_filenames observer_disabled not_locked name_taken : RegistrationError

pub data Checked (A : Type 0) : Type 0 where
  accepted : A → Checked A
  denied : RegistrationError → Checked A

abbrev pub is_blocking : Conflict → Bool
is_blocking terminal_instance = true
is_blocking account_server_duplicate = true
is_blocking _ = false

abbrev pub candidate_id : ℤ
candidate_id = negsuc 0

abbrev pub first_blocking : List Conflict → Checked (Unit {0})
first_blocking [] = accepted tt
first_blocking (c ∷ cs) = denied (blocked_by c)

abbrev replace_row : ℤ → TargetRow → List TargetRow → List TargetRow
replace_row i merged [] = []
replace_row i merged (row ∷ rows) =
    (if int_eq row.id i then merged else row) ∷ replace_row i merged rows

module _ (resolve : Text → Option Text) where
  -- `validate_target_registration` of a new target: `payload` is the row that it is checked as.
  unfoldable pub validate_target_registration : List TargetRow → TargetRow → Checked (Unit {0})
  unfolding find_target_conflicts
  validate_target_registration all_targets payload =
      let working = all_targets ++ record payload { id = candidate_id } ∷ [] in
      first_blocking
        (select is_blocking (find_target_conflicts resolve working (some candidate_id)))

  -- The same of a change of the target `i`: `merged` is its row with the payload.
  unfoldable pub validate_target_change : List TargetRow → ℤ → TargetRow → Checked (Unit {0})
  unfolding find_target_conflicts
  validate_target_change all_targets i merged = first_blocking (
      select is_blocking
        (find_target_conflicts resolve (replace_row i merged all_targets) (some i)))

  abbrev key_for : TargetRow → Option (Text × Text) → Option Text
  key_for row none =
      build_terminal_instance_key resolve row.terminal_data_path row.terminal_exe_path [] []
  key_for row (some (login, server)) =
      build_terminal_instance_key resolve row.terminal_data_path row.terminal_exe_path login server

  -- `compute_instance_fields`
  unfoldable pub compute_instance_fields : TargetRow → Option Text
  unfolding build_terminal_instance_key account_server_pair expected_pair
  compute_instance_fields row =
      key_for row (first_some (account_server_pair row) (expected_pair row))

-- What `normalize_create_payload` reads and sets.
pub record Payload : Type 0 where
  pub display_name : Text
  pub name : Text
  pub terminal_data_path : Text
  pub expected_account_type : Text
  pub account_mode : Text
  pub execution_permission : Text
  pub observer_only : Bool

unfoldable pub normalize_create_payload : Payload → Checked Payload
unfolding strip upper text_eq
normalize_create_payload p =
    let display_name = strip (or_text p.display_name p.name) in
    let terminal_data_path = strip p.terminal_data_path in
    let expected_type =
      upper (or_text p.expected_account_type (or_text p.account_mode (codes "UNKNOWN"))) in
    if is_empty display_name
    then denied display_name_required
    else if is_empty terminal_data_path
    then denied terminal_data_path_required
    else if not (is_expected_type expected_type)
    then denied bad_account_type
    else accepted (record p {
      name = display_name;
      terminal_data_path = terminal_data_path;
      account_mode =
          if not (text_eq expected_type (codes "REAL")) then expected_type else codes "UNKNOWN";
      expected_account_type = expected_type;
      execution_permission = codes "LOCKED";
      observer_only = true;
    })

abbrev pub bool_eq : Bool → Bool → Bool
bool_eq true b = b
bool_eq false b = not b

abbrev filter_enabled : Option Bool → List TargetRow → List TargetRow
filter_enabled none rows = rows
filter_enabled (some b) rows = select (λ row. bool_eq row.is_enabled b) rows

abbrev pub has_type : Text → TargetRow → Bool
has_type wanted row =
    text_eq (upper (or_text row.expected_account_type row.account_mode)) (upper wanted)

abbrev filter_type : Text → List TargetRow → List TargetRow
filter_type t rows = if is_filled t then select (has_type t) rows else rows

abbrev pub is_match : Text → TargetRow → Bool
is_match search row =
    let needle = lower (strip search) in
    contains needle (lower row.name)
    || contains needle (lower row.terminal_label)
    || contains needle (lower row.broker_label)

abbrev filter_search : Text → List TargetRow → List TargetRow
filter_search search rows = if is_filled search then select (is_match search) rows else rows

-- `filter_mt5_targets` on rows of the database, which have no `display_name`; an absent text is the
-- empty one.
unfoldable pub filter_mt5_targets : Option Bool → Text → Text → List TargetRow → List TargetRow
unfolding upper lower strip contains text_eq
filter_mt5_targets is_enabled account_type search targets =
    filter_search search (filter_type account_type (filter_enabled is_enabled targets))

abbrev maximum : ℕ → ℕ → ℕ
maximum a b = if leb a b then b else a

abbrev minimum : ℕ → ℕ → ℕ
minimum a b = if leb a b then a else b

-- `paginate_mt5_targets`; a negative page or size is as good as zero.
unfoldable pub paginate_mt5_targets : {A : Type 0} → List A → ℕ → ℕ → List A × ℕ
paginate_mt5_targets targets page page_size =
    let safe_page = maximum page 1 in
    let safe_size = minimum (maximum page_size 1) 100 in
    (take safe_size (drop ((safe_page - 1) * safe_size) targets), length targets)

-- `discovery_target_blocking_reason`: a conflict, or the key of a registered instance.
pub data BlockingReason : Type 0 where
  conflicting : Conflict → BlockingReason
  key_taken : BlockingReason

module _ (resolve : Text → Option Text) (data_path login server : Text) (key : Text) where
  abbrev has_path : TargetRow → Bool
  has_path row =
      is_filled (normalize_storage_path resolve data_path)
      && text_eq (normalize_storage_path resolve data_path)
          (normalize_storage_path resolve row.terminal_data_path)

  abbrev has_key : TargetRow → Bool
  has_key row = is_filled key && text_eq key row.terminal_instance_key

  abbrev has_account : TargetRow → Bool
  has_account row =
      is_filled (strip login)
      && is_filled (lower (strip server))
      && text_eq (strip (or_text row.detected_account_login row.expected_account_login))
          (strip login)
      && text_eq (lower (strip (or_text row.detected_server row.expected_server)))
          (lower (strip server))

  abbrev first_reason : List TargetRow → Option BlockingReason
  first_reason [] = none
  first_reason (row ∷ rows) =
      if has_path row
      then some (conflicting terminal_instance)
      else if has_key row
      then some key_taken
      else if has_account row
      then some (conflicting account_server_duplicate)
      else first_reason rows

  unfoldable pub discovery_target_blocking_reason : List TargetRow → Option BlockingReason
  unfolding normalize_storage_path strip lower text_eq
  discovery_target_blocking_reason existing_targets = first_reason (active_rows existing_targets)
