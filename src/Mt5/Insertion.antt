-- ===== src/Mt5/Insertion.antt =====
-- dashboard_store.py: the insertion of a target into its table (`_validate_target_core`,
-- `create_target`).
use basket_recovery_ea.Base.{Bool, true, false, not, none, List, if◌then◌else◌, any}
use basket_recovery_ea.Base.Int.{ℤ}
use basket_recovery_ea.Base.Text.{Text, codes, text_eq, strip, upper}
use basket_recovery_ea.Bridge.Errors.{ok, err}
use basket_recovery_ea.Bridge.Validation.{validate_basename}
use basket_recovery_ea.Mt5.{TargetRow, unset, is_expected_type, or_text}
use basket_recovery_ea.Mt5.Registration.{
  Checked, accepted, denied, bad_account_type, bad_filename, same_filenames, observer_disabled,
  not_locked, name_taken,
}

abbrev pub and_then : {A B : Type 0} → Checked A → (A → Checked B) → Checked B
and_then (accepted a) f = f a
and_then (denied e) f = denied e

-- `validate_basename_safe`
unfoldable pub validate_basename_safe : Text → Checked Text
unfolding validate_basename
validate_basename_safe name = elim (validate_basename name) [
  | ok trimmed ↦ accepted trimmed
  | err e ↦ denied bad_filename
]

-- What `_validate_target_core` returns, in its order.
pub record TargetCore : Type 0 where
  pub seed_filename : Text
  pub details_filename : Text
  pub account_mode : Text
  pub expected_type : Text
  pub name : Text

abbrev expected_type_of : TargetRow → Text
unfolding upper
expected_type_of row =
    upper (or_text row.expected_account_type (or_text row.account_mode (codes "UNKNOWN")))

abbrev account_mode_of : Text → Text
account_mode_of t = if text_eq t (codes "DEMO") then t else codes "UNKNOWN"

abbrev core_of : TargetRow → Bool → Text → Text → Text → Checked TargetCore
unfolding upper strip text_eq
core_of row observer_only execution_permission seed details =
    if text_eq seed details
    then denied same_filenames
    else if not (is_expected_type (expected_type_of row))
    then denied bad_account_type
    else if not observer_only
    then denied observer_disabled
    else if not (text_eq (upper execution_permission) (codes "LOCKED"))
    then denied not_locked
    else accepted (record {
      seed_filename = seed;
      details_filename = details;
      account_mode = account_mode_of (expected_type_of row);
      expected_type = expected_type_of row;
      name = strip row.name;
    })

unfoldable pub validate_target_core : TargetRow → Bool → Text → Checked TargetCore
unfolding validate_basename_safe upper strip text_eq
validate_target_core row observer_only execution_permission =
    and_then (validate_basename_safe row.seed_filename) (λ seed.
      and_then (validate_basename_safe row.details_filename)
        (λ details. core_of row observer_only execution_permission seed details))

-- The row of the `INSERT`; nothing is known yet of the terminal.
unfoldable pub inserted_row : ℤ → TargetRow → TargetCore → TargetRow
unfolding strip
inserted_row new_id row core = record {
  id = new_id;
  is_enabled = true;
  name = core.name;
  terminal_label = strip row.terminal_label;
  broker_label = strip row.broker_label;
  terminal_exe_path = strip row.terminal_exe_path;
  terminal_data_path = strip row.terminal_data_path;
  terminal_instance_key = strip row.terminal_instance_key;
  expected_account_login = strip row.expected_account_login;
  expected_server = strip row.expected_server;
  expected_account_type = core.expected_type;
  account_mode = core.account_mode;
  detected_account_login = codes "";
  detected_server = codes "";
  detected_trade_mode = codes "";
  detected_terminal_data_path = codes "";
  file_common_root = strip row.file_common_root;
  seed_filename = core.seed_filename;
  details_filename = core.details_filename;
  magic_number = row.magic_number;
  verification_status = unset;
  is_xauusd_available = false;
  last_verified_at = none;
}

-- `create_target`: `new_id` is the id that the database gives; a taken name is the
-- `IntegrityError` of the table.
unfoldable pub create_target : ℤ → List TargetRow → TargetRow → Bool → Text → Checked TargetRow
unfolding validate_target_core inserted_row text_eq
create_target new_id rows row observer_only execution_permission =
    and_then (validate_target_core row observer_only execution_permission) (λ core.
      if any (λ other. text_eq other.name core.name) rows
      then denied name_taken
      else accepted (inserted_row new_id row core))
