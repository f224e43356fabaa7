-- ===== src/Mt5/Tests.antt =====
-- Two MetaTrader targets on small paths.
use basket_recovery_ea.Base.{
  ℕ, refl, ◌≡◌, ◌↔◌, true, none, some, [], ◌∷◌, Option, if◌then◌else◌, any,
}
use basket_recovery_ea.Base.Int.{pos}
use basket_recovery_ea.Base.Text.{Text, codes, text_eq, strip, lower, upper}
use basket_recovery_ea.Bridge.Validation.{validate_basename}
use basket_recovery_ea.Mt5.{
  TargetRow, verified_ok, probe_verified, normalize_storage_path, expected_pair,
  is_instance_ambiguous,
}
use basket_recovery_ea.Mt5.Conflicts.{
  terminal_instance, account_server_duplicate, active_rows, others, find_target_conflicts,
  same_instance, same_account, row_conflicts, same_files, same_magic,
}
use basket_recovery_ea.Mt5.Conflicts.Pairwise.{
  targets_with_detected_probe, find_target_conflicts-targets_with_detected_probe,
}
use basket_recovery_ea.Mt5.Status.{
  is_verified_ok, project_mt5_target, evaluate_config_match, derive_card_status, file_issues,
}
use basket_recovery_ea.Mt5.Status.Verified.{Alone, card_verified-Alone}
use basket_recovery_ea.Mt5.Registration.{
  accepted, denied, blocked_by, candidate_id, validate_target_registration,
}
use basket_recovery_ea.Mt5.Registration.Laws.{validate_target_registration_lem}
use basket_recovery_ea.Mt5.Insertion.{
  create_target, inserted_row, validate_target_core, validate_basename_safe,
}
use basket_recovery_ea.Mt5.Discovery.{
  Discovery, create_target_from_discovery, build_target_payload_from_discovery, discovered_row,
  prepare_target_row_fields, register_row, verified_row,
}
use basket_recovery_ea.Mt5.Discovery.Created.{Distinct, create_target_from_discovery-Distinct}
use basket_recovery_ea.Mt5.Registration.{normalize_create_payload, compute_instance_fields}
use basket_recovery_ea.Mt5.Verify.{ProbeResult, status_after_probe}
use basket_recovery_ea.Mt5.Verify.Verdict.{all_pass, status_after_probe_lem}

-- Paths that are resolved already.
abbrev resolved : Text → Option Text
resolved path = some path

abbrev target : ℕ → Text → TargetRow
target i path = record {
  id = pos i;
  is_enabled = true;
  name = codes "target";
  terminal_label = [];
  broker_label = [];
  terminal_exe_path = codes "/mt5/terminal64.exe";
  terminal_data_path = path;
  terminal_instance_key = [];
  expected_account_login = [];
  expected_server = [];
  expected_account_type = codes "DEMO";
  account_mode = codes "DEMO";
  detected_account_login = [];
  detected_server = [];
  detected_trade_mode = codes "DEMO";
  detected_terminal_data_path = path;
  file_common_root = codes "/common";
  seed_filename = codes "a.txt";
  details_filename = codes "b.txt";
  magic_number = none;
  verification_status = verified_ok;
  is_xauusd_available = true;
  last_verified_at = some 1;
}

abbrev only : TargetRow
only = target 1 (codes "/mt5/d0e")

validate_target_registration_lem_example :
    validate_target_registration resolved (only ∷ []) (target 2 (codes "/mt5/d0e")) ≡ (
      if any
        (same_instance resolved (record (target 2 (codes "/mt5/d0e")) { id = candidate_id }))
        (only ∷ [])
      then denied (blocked_by terminal_instance)
      else if any
          (same_account resolved (record (target 2 (codes "/mt5/d0e")) { id = candidate_id }))
          (only ∷ [])
      then denied (blocked_by account_server_duplicate)
      else accepted tt)
validate_target_registration_lem_example =
    validate_target_registration_lem resolved (only ∷ []) (target 2 (codes "/mt5/d0e")) (refl, tt)

find_target_conflicts-targets_with_detected_probe_example :
    find_target_conflicts resolved
      (targets_with_detected_probe only (codes "7") (codes "server") (only ∷ []))
      (some (pos 1))
    ≡ find_target_conflicts resolved (only ∷ []) (some (pos 1))
find_target_conflicts-targets_with_detected_probe_example =
    find_target_conflicts-targets_with_detected_probe resolved (codes "7") (codes "server") only
      (only ∷ []) ((λ e. refl), tt)

card_verified-Alone_example :
    (is_verified_ok only.verification_status ≡ true)
    × Alone resolved only (others only (active_rows (only ∷ [])))
unfolding project_mt5_target evaluate_config_match derive_card_status file_issues
    find_target_conflicts row_conflicts same_instance same_account same_files same_magic
    normalize_storage_path strip lower text_eq validate_basename is_instance_ambiguous expected_pair
card_verified-Alone_example = card_verified-Alone resolved only (only ∷ []) refl refl refl

abbrev probe : ProbeResult
probe = record {
  status = probe_verified;
  detected_terminal_data_path = codes "/mt5/d0e";
  account_login = codes "7";
  server = codes "server";
  trade_mode = codes "DEMO";
  is_xauusd_available = true;
}

status_after_probe_lem_example :
    (status_after_probe resolved only probe (only ∷ []) ≡ verified_ok)
    ↔ (all_pass resolved only probe (only ∷ []) ≡ true)
status_after_probe_lem_example = status_after_probe_lem resolved only probe (only ∷ []) refl

abbrev found : Discovery
found = record {
  can_add_as_target = true;
  verification_status = probe_verified;
  display_label = codes " second ";
  terminal_exe_path = codes "/mt5/terminal64.exe";
  terminal_instance_key = [];
  detected_terminal_data_path = codes "/mt5/d1e";
  detected_account_login = codes "8";
  detected_server = codes "server";
  detected_company = codes "broker";
  detected_trade_mode = codes "demo";
  file_common_root = codes "/common";
  is_xauusd_available = true;
  last_verified_at = some 2;
}

abbrev last_name : Text → Text
last_name path = codes "d1e"

abbrev created : TargetRow
created = record {
  id = pos 2;
  is_enabled = true;
  name = codes "second";
  terminal_label = codes "d1e";
  broker_label = codes "broker";
  terminal_exe_path = codes "/mt5/terminal64.exe";
  terminal_data_path = codes "/mt5/d1e";
  terminal_instance_key = codes "data:/mt5/d1e";
  expected_account_login = codes "8";
  expected_server = codes "server";
  expected_account_type = codes "DEMO";
  account_mode = codes "DEMO";
  detected_account_login = codes "8";
  detected_server = codes "server";
  detected_trade_mode = codes "demo";
  detected_terminal_data_path = codes "/mt5/d1e";
  file_common_root = codes "/common";
  seed_filename = codes "_discovery_pending_seed.txt";
  details_filename = codes "_discovery_pending_details.txt";
  magic_number = none;
  verification_status = verified_ok;
  is_xauusd_available = true;
  last_verified_at = some 2;
}

create_target_from_discovery-Distinct_example :
    Distinct resolved last_name (only ∷ []) found (pos 2) created
unfolding create_target_from_discovery build_target_payload_from_discovery discovered_row
    normalize_create_payload prepare_target_row_fields register_row verified_row create_target
    inserted_row validate_target_core validate_basename_safe validate_basename
    validate_target_registration compute_instance_fields strip upper lower text_eq
    find_target_conflicts row_conflicts same_instance same_account same_files same_magic
    normalize_storage_path expected_pair
create_target_from_discovery-Distinct_example =
    create_target_from_discovery-Distinct resolved last_name (pos 2) (only ∷ []) [] found created
      (refl, tt) refl
