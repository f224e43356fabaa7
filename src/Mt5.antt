-- ===== src/Mt5.antt =====
-- integrations/telegram/mt5_target_service.py: the rows of MetaTrader targets, the identity of a
-- terminal, and the account that a target belongs to.
pub mod Conflicts
pub mod Status
pub mod Registration
pub mod Verify
pub mod Discovery
pub mod Insertion
mod Tests
use basket_recovery_ea.Base.{
  ℕ, Bool, true, false, not, ◌&&◌, ◌||◌, Option, none, some, List, [], ◌∷◌, ◌++◌, if◌then◌else◌,
  any,
}
use basket_recovery_ea.Base.Int.{ℤ, int_eq}
use basket_recovery_ea.Base.Text.{Text, codes, text_eq, strip, lower, upper}

-- The values of `verification_status`: those of the probe, and those that the service adds.
pub data VerificationStatus : Type 0 where
  unset probe_verified verified_ok terminal_offline connector_unavailable verify_failed :
      VerificationStatus
  account_mismatch server_mismatch real_account_warning xauusd_not_found : VerificationStatus
  instance_ambiguous instance_data_mismatch instance_path_user_supplied : VerificationStatus

-- What the service reads of a row of `mt5_targets`. NULL is the empty text: the service reads the
-- two alike.
pub record TargetRow : Type 0 where
  pub id : ℤ
  pub is_enabled : Bool
  pub name : Text
  pub terminal_label : Text
  pub broker_label : Text
  pub terminal_exe_path : Text
  pub terminal_data_path : Text
  pub terminal_instance_key : Text
  pub expected_account_login : Text
  pub expected_server : Text
  pub expected_account_type : Text
  pub account_mode : Text
  pub detected_account_login : Text
  pub detected_server : Text
  pub detected_trade_mode : Text
  pub detected_terminal_data_path : Text
  pub file_common_root : Text
  pub seed_filename : Text
  pub details_filename : Text
  pub magic_number : Option ℕ
  pub verification_status : VerificationStatus
  pub is_xauusd_available : Bool
  pub last_verified_at : Option ℕ

abbrev pub is_empty : Text → Bool
is_empty [] = true
is_empty (_ ∷ _) = false

abbrev pub is_filled : Text → Bool
is_filled t = not (is_empty t)

abbrev pub or_text : Text → Text → Text
or_text t other = if is_filled t then t else other

abbrev pub is_expected_type : Text → Bool
is_expected_type t =
    text_eq t (codes "DEMO") || text_eq t (codes "REAL") || text_eq t (codes "UNKNOWN")

-- `resolve_expected_account_type`
unfoldable pub resolve_expected_account_type : TargetRow → Text
unfolding strip upper text_eq
resolve_expected_account_type row =
    let explicit = strip (upper row.expected_account_type) in
    let legacy = strip (upper (or_text row.account_mode (codes "UNKNOWN"))) in
    if is_expected_type explicit
    then explicit
    else (if is_expected_type legacy then legacy else codes "UNKNOWN")

abbrev pub full_pair : Text → Text → Option (Text × Text)
full_pair login server = if is_filled login && is_filled server then some (login, server) else none

-- `account_server_pair`, without and with the preference for what was detected.
unfoldable pub expected_pair : TargetRow → Option (Text × Text)
unfolding strip lower
expected_pair row = full_pair (strip row.expected_account_login) (lower (strip row.expected_server))

unfoldable pub account_server_pair : TargetRow → Option (Text × Text)
unfolding strip lower
account_server_pair row =
    let login = strip row.detected_account_login in
    let server = lower (strip row.detected_server) in
    if is_filled login && is_filled server
    then some (login, server)
    else full_pair (strip (or_text row.expected_account_login login))
        (lower (strip (or_text row.expected_server server)))

-- `resolve` stands for `str(Path(…).expanduser().resolve())`, which may raise `OSError`.
module _ (resolve : Text → Option Text) where
  unfoldable pub normalize_storage_path : Text → Text
  unfolding strip lower
  normalize_storage_path [] = []
  normalize_storage_path (c ∷ t) = elim (resolve (strip (c ∷ t))) [
    | none ↦ lower (strip (c ∷ t))
    | some resolved ↦ lower resolved
  ]

  -- `build_terminal_instance_key`
  unfoldable pub build_terminal_instance_key : Text → Text → Text → Text → Option Text
  unfolding normalize_storage_path
  build_terminal_instance_key terminal_data_path terminal_exe_path account_login server =
      let data_path = normalize_storage_path terminal_data_path in
      let exe_path = normalize_storage_path terminal_exe_path in
      let login = strip account_login in
      let srv = lower (strip server) in
      if is_filled data_path
      then some (codes "data:" ++ data_path)
      else (if is_filled exe_path && is_filled login && is_filled srv
          then some (codes "fallback:" ++ exe_path ++ b'|' ∷ login ++ b'|' ∷ srv)
          else none)

  abbrev pub shares_program : TargetRow → Text → TargetRow → Bool
  shares_program row exe_path item =
      item.is_enabled
      && not (int_eq item.id row.id)
      && text_eq (normalize_storage_path item.terminal_exe_path) exe_path
      && is_empty (normalize_storage_path item.terminal_data_path)

  -- `is_instance_ambiguous`
  unfoldable pub is_instance_ambiguous : TargetRow → List TargetRow → Bool
  unfolding normalize_storage_path text_eq
  is_instance_ambiguous row all_targets =
      if is_filled (normalize_storage_path row.terminal_data_path)
      then false
      else (let exe_path = normalize_storage_path row.terminal_exe_path in
          if is_empty exe_path then true else any (shares_program row exe_path) all_targets)
