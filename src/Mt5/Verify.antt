-- ===== src/Mt5/Verify.antt =====
-- mt5_target_service.py: the status that the verification of a target gives it (`verify_target`,
-- behind the probe of the terminal).
pub mod Verdict
use basket_recovery_ea.Base.{Bool, true, false, not, ◌&&◌, Option, some, List, if◌then◌else◌, any}
use basket_recovery_ea.Base.Text.{Text, codes, text_eq, strip, lower}
use basket_recovery_ea.Mt5.{
  VerificationStatus, probe_verified, verified_ok, account_mismatch, server_mismatch,
  real_account_warning, xauusd_not_found, instance_data_mismatch, instance_path_user_supplied,
  TargetRow, is_empty, is_filled, resolve_expected_account_type, normalize_storage_path,
}
use basket_recovery_ea.Mt5.Conflicts.{conflict_eq, account_server_duplicate, find_target_conflicts}
use basket_recovery_ea.Mt5.Conflicts.Pairwise.{targets_with_detected_probe}

-- What is read of a `ProbeResult`.
pub record ProbeResult : Type 0 where
  pub status : VerificationStatus
  pub detected_terminal_data_path : Text
  pub account_login : Text
  pub server : Text
  pub trade_mode : Text
  pub is_xauusd_available : Bool

abbrev pub is_probe_verified : VerificationStatus → Bool
is_probe_verified probe_verified = true
is_probe_verified _ = false

abbrev pub replaced_if : Bool → VerificationStatus → VerificationStatus → VerificationStatus
replaced_if true new old = new
replaced_if false new old = old

module _ (resolve : Text → Option Text) (row : TargetRow) (probe : ProbeResult) where
  abbrev pub configured_data : Text
  configured_data = normalize_storage_path resolve row.terminal_data_path

  abbrev pub detected_data : Text
  detected_data = normalize_storage_path resolve probe.detected_terminal_data_path

  abbrev pub is_unproved : Bool
  is_unproved = is_filled configured_data && is_empty detected_data

  abbrev pub is_other_data : Bool
  is_other_data =
      is_filled configured_data
      && is_filled detected_data
      && not (text_eq configured_data detected_data)

  unfoldable pub is_real_for_demo : Bool
  unfolding resolve_expected_account_type text_eq
  is_real_for_demo =
      text_eq (resolve_expected_account_type row) (codes "DEMO")
      && text_eq probe.trade_mode (codes "REAL")

  unfoldable pub is_other_login : Bool
  unfolding strip text_eq
  is_other_login =
      is_filled (strip row.expected_account_login)
      && is_filled probe.account_login
      && not (text_eq (strip row.expected_account_login) probe.account_login)

  unfoldable pub is_other_server : Bool
  unfolding strip lower text_eq
  is_other_server =
      is_filled (lower (strip row.expected_server))
      && is_filled probe.server
      && not (text_eq (lower (strip row.expected_server)) (lower (strip probe.server)))

  unfoldable pub has_duplicate : List TargetRow → Bool
  unfolding find_target_conflicts targets_with_detected_probe
  has_duplicate all_targets = any (conflict_eq account_server_duplicate) (
      find_target_conflicts resolve
        (targets_with_detected_probe row probe.account_login probe.server all_targets)
        (some row.id))

  -- The tests behind a successful probe, one after the other.
  unfoldable pub status_of_verified : List TargetRow → VerificationStatus
  unfolding normalize_storage_path text_eq is_real_for_demo is_other_login is_other_server
      has_duplicate
  status_of_verified all_targets =
      let s₁ =
        if is_unproved
        then instance_path_user_supplied
        else replaced_if is_other_data instance_data_mismatch probe.status in
      let s₂ = replaced_if is_real_for_demo real_account_warning s₁ in
      let s₃ = replaced_if is_other_login account_mismatch s₂ in
      let s₄ = replaced_if is_other_server server_mismatch s₃ in
      let s₅ =
        replaced_if (not probe.is_xauusd_available && is_probe_verified s₄) xauusd_not_found s₄ in
      let s₆ = replaced_if (has_duplicate all_targets) account_mismatch s₅ in
      replaced_if (is_probe_verified s₆) verified_ok s₆

  unfoldable pub status_after_probe : List TargetRow → VerificationStatus
  unfolding status_of_verified
  status_after_probe all_targets =
      if is_probe_verified probe.status then status_of_verified all_targets else probe.status
