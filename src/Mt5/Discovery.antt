-- ===== src/Mt5/Discovery.antt =====
-- mt5_target_service.py: the target that a discovered terminal becomes
-- (`build_target_payload_from_discovery`, `create_target_from_discovery`).
pub mod Created
use basket_recovery_ea.Base.{
  ℕ, Bool, true, false, not, Option, none, some, List, if◌then◌else◌, take,
}
use basket_recovery_ea.Base.Text.{Text, codes, strip, upper}
use basket_recovery_ea.Mt5.{
  VerificationStatus, unset, verified_ok, instance_ambiguous, TargetRow, is_empty, is_filled,
  or_text, is_expected_type,
}
use basket_recovery_ea.Mt5.Insertion.{and_then, create_target}
use basket_recovery_ea.Base.Int.{ℤ}
use basket_recovery_ea.Mt5.Status.{
  discovery_pending_seed, discovery_pending_details, file_common_pending_path,
}
use basket_recovery_ea.Mt5.Registration.{
  Checked, accepted, denied, cannot_add, ambiguous_discovery, terminal_data_path_required, Payload,
  normalize_create_payload, validate_target_registration, compute_instance_fields, candidate_id,
}

-- What is read of a discovery.
pub record Discovery : Type 0 where
  pub can_add_as_target : Bool
  pub verification_status : VerificationStatus
  pub display_label : Text
  pub terminal_exe_path : Text
  pub terminal_instance_key : Text
  pub detected_terminal_data_path : Text
  pub detected_account_login : Text
  pub detected_server : Text
  pub detected_company : Text
  pub detected_trade_mode : Text
  pub file_common_root : Text
  pub is_xauusd_available : Bool
  pub last_verified_at : Option ℕ

abbrev pub is_ambiguous : VerificationStatus → Bool
is_ambiguous instance_ambiguous = true
is_ambiguous _ = false

abbrev expected_type_of : Text → Text
expected_type_of trade_mode = if is_expected_type trade_mode then trade_mode else codes "UNKNOWN"

-- `base_name` stands for `Path(…).name`.
module _ (resolve : Text → Option Text) (base_name : Text → Text) where
  -- `_terminal_label_from_discovery`
  pub terminal_label_from_discovery : Text → Text
  terminal_label_from_discovery data_path =
      let name = base_name data_path in if is_filled name then take 12 name else codes "MT5"

  -- The row of the payload; the magic number is absent and nothing is verified yet.
  unfoldable pub discovered_row : Text → Discovery → TargetRow
  unfolding strip upper terminal_label_from_discovery
  discovered_row display_name d =
      let login = strip d.detected_account_login in
      let server = strip d.detected_server in
      let broker_label = or_text (strip d.detected_company) (or_text server (codes "MT5")) in
      let trade_mode = upper (or_text d.detected_trade_mode (codes "UNKNOWN")) in
      record {
        id = candidate_id;
        is_enabled = true;
        name = or_text display_name (strip (or_text d.display_label broker_label));
        terminal_label = terminal_label_from_discovery (strip d.detected_terminal_data_path);
        broker_label = broker_label;
        terminal_exe_path = d.terminal_exe_path;
        terminal_data_path = strip d.detected_terminal_data_path;
        terminal_instance_key = d.terminal_instance_key;
        expected_account_login = login;
        expected_server = server;
        expected_account_type = expected_type_of trade_mode;
        account_mode = codes "";
        detected_account_login = codes "";
        detected_server = codes "";
        detected_trade_mode = codes "";
        detected_terminal_data_path = codes "";
        file_common_root = or_text d.file_common_root file_common_pending_path;
        seed_filename = discovery_pending_seed;
        details_filename = discovery_pending_details;
        magic_number = none;
        verification_status = unset;
        is_xauusd_available = false;
        last_verified_at = none;
      }

  unfoldable pub build_target_payload_from_discovery : Text → Discovery → Checked TargetRow
  unfolding discovered_row
  build_target_payload_from_discovery display_name d =
      if not d.can_add_as_target
      then denied cannot_add
      else if is_ambiguous d.verification_status
      then denied ambiguous_discovery
      else if is_empty (strip d.detected_terminal_data_path)
      then denied terminal_data_path_required
      else accepted (discovered_row display_name d)

  abbrev payload_of : TargetRow → Payload
  payload_of row = record {
    display_name = row.name;
    name = row.name;
    terminal_data_path = row.terminal_data_path;
    expected_account_type = row.expected_account_type;
    account_mode = row.account_mode;
    execution_permission = codes "LOCKED";
    observer_only = true;
  }

  -- The row with what `normalize_create_payload` sets.
  abbrev normalized_row : TargetRow → Payload → TargetRow
  normalized_row row p = record row {
    name = p.name;
    terminal_data_path = p.terminal_data_path;
    account_mode = p.account_mode;
    expected_account_type = p.expected_account_type;
  }

  abbrev key_or_empty : Option Text → Text
  key_or_empty none = codes ""
  key_or_empty (some key) = key

  -- `prepare_target_row_fields`
  unfoldable pub prepare_target_row_fields : TargetRow → TargetRow
  unfolding compute_instance_fields strip
  prepare_target_row_fields row = record row {
    terminal_instance_key = key_or_empty (compute_instance_fields resolve row);
    terminal_data_path = strip row.terminal_data_path;
  }

  -- The row that `save_target_verification` leaves.
  unfoldable pub verified_row : Discovery → TargetRow → TargetRow
  verified_row d row = record row {
    detected_account_login = d.detected_account_login;
    detected_server = d.detected_server;
    detected_trade_mode = d.detected_trade_mode;
    detected_terminal_data_path = d.detected_terminal_data_path;
    verification_status = verified_ok;
    is_xauusd_available = d.is_xauusd_available;
    last_verified_at = d.last_verified_at;
  }

  -- The registration of a row whose payload is normalized: its checks and its insertion.
  unfoldable pub register_row : ℤ → List TargetRow → TargetRow → Payload → Checked TargetRow
  unfolding validate_target_registration prepare_target_row_fields create_target
  register_row new_id rows row p = and_then (validate_target_registration resolve rows row) (λ _.
      create_target new_id rows (prepare_target_row_fields row) p.observer_only
        p.execution_permission)

  -- `create_target_from_discovery`: the row that it leaves in the table.
  unfoldable pub create_target_from_discovery :
      ℤ → List TargetRow → Text → Discovery → Checked TargetRow
  unfolding build_target_payload_from_discovery normalize_create_payload register_row verified_row
  create_target_from_discovery new_id rows display_name d =
      and_then (build_target_payload_from_discovery display_name d) (λ row.
        and_then (normalize_create_payload (payload_of row)) (λ p.
          and_then (register_row new_id rows (normalized_row row p) p)
            (λ created. accepted (verified_row d created))))
