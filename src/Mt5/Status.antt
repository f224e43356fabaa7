-- ===== src/Mt5/Status.antt =====
-- mt5_target_service.py: what the dashboard says of a target: its configuration, its terminal, its
-- card, its warnings, and the summary of all targets.
pub mod Verified
use basket_recovery_ea.Base.{
  Bool, true, false, not, ◌&&◌, ◌||◌, Option, some, List, [], ◌∷◌, ◌++◌, if◌then◌else◌, any,
  is_some, map,
}
use basket_recovery_ea.Base.Text.{Text, codes, text_eq, strip, lower, upper}
use basket_recovery_ea.Bridge.Errors.{Result, ok, err}
use basket_recovery_ea.Bridge.Validation.{validate_basename}
use basket_recovery_ea.Mt5.{
  VerificationStatus, verified_ok, terminal_offline, connector_unavailable, verify_failed,
  account_mismatch, server_mismatch, real_account_warning, xauusd_not_found, instance_ambiguous,
  instance_data_mismatch, instance_path_user_supplied, TargetRow, is_empty, is_filled,
  resolve_expected_account_type, normalize_storage_path, is_instance_ambiguous, or_text,
}
use basket_recovery_ea.Mt5.Conflicts.{
  Conflict, conflict_eq, terminal_instance, find_target_conflicts,
}

-- The messages in `issues`.
pub data Issue : Type 0 where
  data_path_required ambiguous_instance file_common_pending ea_files_pending : Issue
  file_names_required unsafe_file_names equal_file_names : Issue
  conflict : Conflict → Issue

abbrev pub issue_if : Bool → Issue → List Issue
issue_if true i = i ∷ []
issue_if false i = []

abbrev pub is_ok : {A : Type 0} → Result A → Bool
is_ok (ok a) = true
is_ok (err e) = false

abbrev pub discovery_pending_seed : Text
discovery_pending_seed = codes "_discovery_pending_seed.txt"

abbrev pub discovery_pending_details : Text
discovery_pending_details = codes "_discovery_pending_details.txt"

abbrev pub file_common_pending_path : Text
file_common_pending_path = codes "__FILE_COMMON_PENDING_VERIFICATION__"

abbrev names_pending : Text → Text → Bool
names_pending seed details =
    text_eq seed discovery_pending_seed || text_eq details discovery_pending_details

-- The issues with the two file names.
unfoldable pub file_issues : Text → Text → List Issue
unfolding text_eq validate_basename
file_issues seed details =
    if names_pending seed details
    then ea_files_pending ∷ []
    else (if is_empty seed || is_empty details
        then file_names_required ∷ []
        else issue_if (not (is_ok (validate_basename seed) && is_ok (validate_basename details)))
            unsafe_file_names
          ++ issue_if (text_eq seed details) equal_file_names)

abbrev pub no_issue : List Issue → Bool
no_issue [] = true
no_issue (_ ∷ _) = false

-- `INSTANCE_STATUS_…` and `CARD_STATUS_…`
pub data InstanceStatus : Type 0 where
  instance_conflict instance_unclear user_supplied instance_verified instance_pending :
      InstanceStatus

pub data CardStatus : Type 0 where
  disabled_card card_ambiguous card_offline card_open_failed card_mismatch : CardStatus
  card_ea_pending card_verified card_locked : CardStatus

pub data Warning : Type 0 where
  real_account other_account other_server other_data_path : Warning

abbrev warn_if : Bool → Warning → List Warning
warn_if true w = w ∷ []
warn_if false w = []

abbrev differ : Text → Text → Bool
differ a b = is_filled a && is_filled b && not (text_eq a b)

-- `derive_card_status`, from whether the configuration has the status `OK`.
unfoldable pub derive_card_status : TargetRow → Bool → CardStatus
derive_card_status row config_ok =
    if not row.is_enabled then disabled_card else elim row.verification_status [
      | instance_ambiguous ↦ card_ambiguous
      | terminal_offline ↦ card_offline
      | connector_unavailable ↦ card_open_failed
      | verify_failed ↦ card_open_failed
      | instance_data_mismatch ↦ card_open_failed
      | account_mismatch ↦ card_mismatch
      | server_mismatch ↦ card_mismatch
      | real_account_warning ↦ card_mismatch
      | verified_ok ↦ if config_ok then card_verified else card_ea_pending
      | _ ↦ if is_some row.last_verified_at then card_locked else card_ea_pending
    ]

-- `xauusd_status_label`
pub data XauusdLabel : Type 0 where
  xauusd_ready xauusd_missing xauusd_closed : XauusdLabel

abbrev pub is_missing : VerificationStatus → Bool
is_missing xauusd_not_found = true
is_missing _ = false

unfoldable pub xauusd_status_label : TargetRow → XauusdLabel
xauusd_status_label row =
    if row.is_xauusd_available
    then xauusd_ready
    else (if is_missing row.verification_status
        then xauusd_missing
        else (if is_some row.last_verified_at then xauusd_closed else xauusd_missing))

abbrev is_ambiguous_status : VerificationStatus → Bool
is_ambiguous_status instance_ambiguous = true
is_ambiguous_status _ = false

abbrev is_user_supplied : VerificationStatus → Bool
is_user_supplied instance_path_user_supplied = true
is_user_supplied _ = false

abbrev pub is_verified_ok : VerificationStatus → Bool
is_verified_ok verified_ok = true
is_verified_ok _ = false

module _ (resolve : Text → Option Text) where
  abbrev path : Text → Text
  path t = normalize_storage_path resolve t

  abbrev pub instance_issues : TargetRow → List TargetRow → List Issue
  instance_issues row all_targets =
      if is_empty (path row.terminal_data_path)
      then data_path_required ∷ []
      else issue_if (is_instance_ambiguous resolve row all_targets) ambiguous_instance

  -- `evaluate_config_match`: the issues, with no issue for the status `OK`. An empty list of targets
  -- is not tested for ambiguity, and has none.
  unfoldable pub evaluate_config_match : TargetRow → List Conflict → List TargetRow → List Issue
  unfolding normalize_storage_path is_instance_ambiguous strip text_eq file_issues
  evaluate_config_match row conflicts all_targets =
      instance_issues row all_targets
      ++ issue_if (text_eq (path row.file_common_root) (path file_common_pending_path))
          file_common_pending
      ++ file_issues (strip row.seed_filename) (strip row.details_filename)
      ++ map conflict conflicts

  -- `derive_terminal_instance_status`
  unfoldable pub derive_terminal_instance_status :
      TargetRow → List Conflict → List TargetRow → InstanceStatus
  unfolding is_instance_ambiguous
  derive_terminal_instance_status row conflicts all_targets =
      if any (conflict_eq terminal_instance) conflicts
      then instance_conflict
      else if is_ambiguous_status row.verification_status
          || is_instance_ambiguous resolve row all_targets
      then instance_unclear
      else if is_user_supplied row.verification_status
      then user_supplied
      else if is_filled row.terminal_data_path && is_verified_ok row.verification_status
      then instance_verified
      else if is_filled row.terminal_data_path && is_some row.last_verified_at
      then instance_verified
      else if is_filled row.terminal_data_path
      then instance_pending
      else instance_unclear

  -- `_collect_warnings`
  unfoldable pub collect_warnings : TargetRow → Text → Text → List Warning
  unfolding normalize_storage_path strip lower text_eq
  collect_warnings row expected_type detected_type =
      warn_if (text_eq expected_type (codes "DEMO") && text_eq detected_type (codes "REAL"))
        real_account
      ++ warn_if (differ (strip row.expected_account_login) (strip row.detected_account_login))
          other_account
      ++ warn_if (differ (lower (strip row.expected_server)) (lower (strip row.detected_server)))
          other_server
      ++ warn_if (differ (path row.terminal_data_path) (path row.detected_terminal_data_path))
          other_data_path

  -- What `project_mt5_target` derives; it copies the rest of the row, and says that the permission
  -- to execute is locked.
  pub record Projected : Type 0 where
    pub row : TargetRow
    pub expected_account_type : Text
    pub detected_trade_mode : Text
    pub issues : List Issue
    pub terminal_instance_status : InstanceStatus
    pub card_status : CardStatus
    pub warnings : List Warning
    pub xauusd_status : XauusdLabel

  unfoldable pub project_mt5_target : TargetRow → List TargetRow → Projected
  unfolding evaluate_config_match derive_terminal_instance_status derive_card_status
      collect_warnings xauusd_status_label resolve_expected_account_type find_target_conflicts upper
  project_mt5_target row all_targets =
      let expected_type = resolve_expected_account_type row in
      let detected_type = upper (or_text row.detected_trade_mode (codes "UNKNOWN")) in
      let conflicts = find_target_conflicts resolve all_targets (some row.id) in
      let issues = evaluate_config_match row conflicts all_targets in
      record {
        row = row;
        expected_account_type = expected_type;
        detected_trade_mode = detected_type;
        issues = issues;
        terminal_instance_status = derive_terminal_instance_status row conflicts all_targets;
        card_status = derive_card_status row (no_issue issues);
        warnings = collect_warnings row expected_type detected_type;
        xauusd_status = xauusd_status_label row;
      }
