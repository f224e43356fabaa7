-- ===== src/CandidateTest.antt =====
-- integrations/telegram/candidate_test_arm_service.py: when a route may be armed, when its arm has
-- run out, and when a real publication is allowed. A time is a number of seconds; the texts that
-- the database holds are all written in one fixed-width format, so they compare like the times.
use basket_recovery_ea.Base.{
  ℕ, ◌+◌, ◌-◌, Bool, true, false, not, ◌&&◌, ◌||◌, Option, none, some, [], ◌∷◌, ◌==◌, ltb, leb,
  if◌then◌else◌,
}
use mathlib.Core.List.{reverse}
use basket_recovery_ea.Base.Text.{Text, codes, text_eq, strip, upper, lower, contains}

abbrev pub candidate_test_ttl_seconds : ℕ
candidate_test_ttl_seconds = 900

abbrev pub candidate_test_publish_limit : ℕ
candidate_test_publish_limit = 1

abbrev pub expected_magic_number : ℕ
expected_magic_number = 91001

-- `ROUTE_MODE_…`: the modes that a route can have.
pub data RouteMode : Type 0 where
  observer_only armed consumed expired blocked : RouteMode

-- The second part of what the two checks return.
pub data BlockReason : Type 0 where
  route_disabled target_disabled target_not_demo execution_permission_not_locked : BlockReason
  magic_mismatch symbol_mismatch seed_filename_mismatch details_filename_mismatch : BlockReason
  broker_mismatch terminal_data_path_mismatch route_source_mismatch : BlockReason
  another_route_already_armed already_armed candidate_test_not_rearmable : BlockReason
  observer_only_no_real_publish candidate_test_not_armed dry_run_blocks_real_publish : BlockReason
  listener_not_running candidate_test_expired candidate_test_publish_already_consumed : BlockReason

-- The text of a reason.
abbrev pub reason_code : BlockReason → Text
reason_code route_disabled = codes "ROUTE_DISABLED"
reason_code target_disabled = codes "TARGET_DISABLED"
reason_code target_not_demo = codes "TARGET_NOT_DEMO"
reason_code execution_permission_not_locked = codes "EXECUTION_PERMISSION_NOT_LOCKED"
reason_code magic_mismatch = codes "MAGIC_MISMATCH"
reason_code symbol_mismatch = codes "SYMBOL_MISMATCH"
reason_code seed_filename_mismatch = codes "SEED_FILENAME_MISMATCH"
reason_code details_filename_mismatch = codes "DETAILS_FILENAME_MISMATCH"
reason_code broker_mismatch = codes "BROKER_MISMATCH"
reason_code terminal_data_path_mismatch = codes "TERMINAL_DATA_PATH_MISMATCH"
reason_code route_source_mismatch = codes "ROUTE_SOURCE_MISMATCH"
reason_code another_route_already_armed = codes "ANOTHER_ROUTE_ALREADY_ARMED"
reason_code already_armed = codes "ALREADY_ARMED"
reason_code candidate_test_not_rearmable = codes "CANDIDATE_TEST_NOT_REARMABLE"
reason_code observer_only_no_real_publish = codes "OBSERVER_ONLY_NO_REAL_PUBLISH"
reason_code candidate_test_not_armed = codes "CANDIDATE_TEST_NOT_ARMED"
reason_code dry_run_blocks_real_publish = codes "DRY_RUN_BLOCKS_REAL_PUBLISH"
reason_code listener_not_running = codes "LISTENER_NOT_RUNNING"
reason_code candidate_test_expired = codes "CANDIDATE_TEST_EXPIRED"
reason_code candidate_test_publish_already_consumed =
    codes "CANDIDATE_TEST_PUBLISH_ALREADY_CONSUMED"

-- What `validate_arm_eligibility` reads of its argument `route`.
pub record ArmRoute : Type 0 where
  pub is_enabled : Bool
  pub channel_title : Text
  pub name : Text
  pub mode : RouteMode

-- What it reads of its argument `target`; an absent value is the empty text or zero.
pub record ArmTarget : Type 0 where
  pub is_enabled : Bool
  pub account_mode : Text
  pub expected_account_type : Text
  pub execution_permission : Text
  pub magic_number : ℕ
  pub chart_symbol : Text
  pub seed_filename : Text
  pub details_filename : Text
  pub broker_label : Text
  pub terminal_data_path : Text

abbrev pub is_armed_mode : RouteMode → Bool
is_armed_mode armed = true
is_armed_mode _ = false

-- `value.replace("\\", "/").strip().strip('"').upper()`
replace_backslash : Text → Text
replace_backslash [] = []
replace_backslash (c ∷ t) = (if c == b'\\' then b'/' else c) ∷ replace_backslash t

skip_quotes : Text → Text
skip_quotes [] = []
skip_quotes (c ∷ t) = if c == b'"' then skip_quotes t else c ∷ t

unfoldable pub strip_quotes : Text → Text
unfolding skip_quotes
strip_quotes t = reverse (skip_quotes (reverse (skip_quotes t)))

unfoldable pub normalize_path_token : Text → Text
unfolding replace_backslash strip strip_quotes upper
normalize_path_token value = upper (strip_quotes (strip (replace_backslash value)))

abbrev pub d0e_terminal_data_path_id : Text
d0e_terminal_data_path_id = codes "D0E8209F77C8CF37AD8BF550E51FF075"

unfoldable pub path_contains_d0e : Text → Bool
unfolding normalize_path_token contains
path_contains_d0e value = contains d0e_terminal_data_path_id (normalize_path_token value)

abbrev or_text : Text → Text → Text
or_text [] other = other
or_text (c ∷ t) other = c ∷ t

unfoldable pub target_account_mode : ArmTarget → Text
unfolding upper
target_account_mode target = upper (or_text target.account_mode target.expected_account_type)

abbrev is_text : Text → Text → Bool
is_text a b = text_eq a b

-- `broker and broker != EXPECTED_BROKER_LABEL`
unfoldable pub other_broker : Text → Bool
unfolding text_eq
other_broker [] = false
other_broker (c ∷ t) = not (text_eq (c ∷ t) (codes "VantageMarkets-Demo"))

-- `none` stands for `(True, None)`, `some reason` for `(False, reason)`.
abbrev pub unless : Bool → BlockReason → Option BlockReason → Option BlockReason
unless true reason rest = rest
unless false reason rest = some reason

-- The tests of the route's own mode, which end the check.
abbrev pub rearm_check : RouteMode → Option BlockReason
rearm_check armed = some already_armed
rearm_check consumed = some candidate_test_not_rearmable
rearm_check expired = some candidate_test_not_rearmable
rearm_check blocked = some candidate_test_not_rearmable
rearm_check observer_only = none

-- The tests of the target's configuration.
unfoldable pub target_check : ArmTarget → Option BlockReason → Option BlockReason
unfolding target_account_mode text_eq upper strip other_broker path_contains_d0e
target_check target rest =
    unless (text_eq (target_account_mode target) (codes "DEMO")) target_not_demo (
      unless (text_eq (upper target.execution_permission) (codes "LOCKED"))
        execution_permission_not_locked
        (unless (target.magic_number == expected_magic_number) magic_mismatch (
          unless (text_eq (upper target.chart_symbol) (codes "XAUUSD")) symbol_mismatch (
            unless (text_eq target.seed_filename (codes "br_d0e_justgold_seed.txt"))
              seed_filename_mismatch
              (unless (text_eq target.details_filename (codes "br_d0e_justgold_details.txt"))
                details_filename_mismatch
                (unless (not (other_broker (strip target.broker_label))) broker_mismatch (
                  unless (path_contains_d0e target.terminal_data_path) terminal_data_path_mismatch
                    rest)))))))

unfoldable pub validate_arm_eligibility : ArmRoute → ArmTarget → ℕ → Option BlockReason
unfolding target_check text_eq strip lower
validate_arm_eligibility route target active_armed_route_count =
    unless route.is_enabled route_disabled (
      unless target.is_enabled target_disabled (
        target_check target (
          unless
            (text_eq (strip route.channel_title) (codes "JustGold")
              || text_eq (lower (strip route.name)) (codes "justgold"))
            route_source_mismatch
            (unless (active_armed_route_count == 0) another_route_already_armed
              (rearm_check route.mode)))))

-- What the publication check reads of a route.
pub record Arm : Type 0 where
  pub mode : RouteMode
  pub expires_at : Option ℕ
  pub publish_count : ℕ

abbrev pub has_run_out : Option ℕ → ℕ → Bool
has_run_out none now = true
has_run_out (some expires) now = leb expires now

unfoldable pub is_arm_expired : Arm → ℕ → Bool
is_arm_expired arm now = is_armed_mode arm.mode && has_run_out arm.expires_at now

-- `build_arm_schedule`
unfoldable pub build_arm_schedule : ℕ → ℕ × ℕ
build_arm_schedule now = (now, now + candidate_test_ttl_seconds)

unfoldable pub evaluate_real_publish_permission : Arm → Bool → Bool → ℕ → Option BlockReason
unfolding is_arm_expired
evaluate_real_publish_permission arm listener_running dry_run now = elim arm.mode [
  | observer_only ↦ some observer_only_no_real_publish
  | armed ↦ unless (not dry_run) dry_run_blocks_real_publish (
      unless listener_running listener_not_running (
        unless (not (is_arm_expired arm now)) candidate_test_expired (
          unless (ltb arm.publish_count candidate_test_publish_limit)
            candidate_test_publish_already_consumed none)))
  | _ ↦ some candidate_test_not_armed
]

abbrev pub route_supports_listener_start : RouteMode → Bool
route_supports_listener_start observer_only = true
route_supports_listener_start armed = true
route_supports_listener_start _ = false

-- `build_arm_audit`, without the texts that it copies.
pub record ArmAudit : Type 0 where
  pub status : RouteMode
  pub publish_count : ℕ
  pub publish_remaining : ℕ

unfoldable pub build_arm_audit : Arm → ArmAudit
build_arm_audit arm = record {
  status = arm.mode;
  publish_count = arm.publish_count;
  publish_remaining = candidate_test_publish_limit - arm.publish_count;
}
