-- ===== src/Arming/Tests.antt =====
-- Runs of the candidate-test arms on a small database.
use basket_recovery_ea.Base.{
  ℕ, ◌+◌, ◌≤◌, ◌<◌, ◌≡◌, ◌↔◌, true, false, refl, none, some, List, [], ◌∷◌, arith,
}
use basket_recovery_ea.Base.Text.{codes}
use basket_recovery_ea.CandidateTest.{
  observer_only, armed, Arm, ArmRoute, ArmTarget, candidate_test_ttl_seconds,
  validate_arm_eligibility, evaluate_real_publish_permission,
}
use basket_recovery_ea.Store.Tables.{Channel, Target, Route, Database}
use basket_recovery_ea.Store.Arms.{
  arm_of, arm_row, get_route_detail, count_arms_except, arm_candidate_test_route,
}
use basket_recovery_ea.Store.OneArm.{count_arms, RoutesInv}
use basket_recovery_ea.Arming.{arm_route}
use basket_recovery_ea.Arming.Steps.{RouteOp, arm, consume, create, apply_all}
use basket_recovery_ea.Base.{is_some}
use basket_recovery_ea.Store.Tables.{find_route}
use basket_recovery_ea.Store.Arms.{get_route_start_context}
use basket_recovery_ea.Arming.Steps.{delete}
use basket_recovery_ea.Arming.Joined.{
  TableOp, on_routes, sync_channels, change_channel, remove_channel, remove_target, run_on_tables,
}
use basket_recovery_ea.Arming.Joined.Runs.{run_on_tables-joins}
use basket_recovery_ea.Arming.Invariant.{apply_all-one_arm}
use basket_recovery_ea.Arming.Permission.{Before, permission_lem, arm_row-window}

abbrev pub just_gold : Channel
just_gold = record {
  id = 1;
  telegram_channel_id = codes "-1001";
  title = codes "JustGold";
  is_tracking = true;
}

abbrev pub demo_target : Target
demo_target = record {
  id = 1;
  name = codes "demo";
  account_mode = codes "DEMO";
  expected_account_type = codes "DEMO";
  execution_permission = codes "LOCKED";
  magic_number = 91001;
  chart_symbol = codes "XAUUSD";
  seed_filename = codes "br_d0e_justgold_seed.txt";
  details_filename = codes "br_d0e_justgold_details.txt";
  broker_label = codes "VantageMarkets-Demo";
  terminal_data_path = codes "C:\\Terminal\\D0E8209F77C8CF37AD8BF550E51FF075";
  file_common_root = codes "/tmp/common";
  observer_only = true;
  is_enabled = true;
}

abbrev pub plain_route : ℕ → Route
plain_route i = record {
  id = i;
  name = codes "route";
  channel_id = 1;
  target_id = 1;
  mode = observer_only;
  is_enabled = true;
  last_publish_status = none;
  last_publish_at = none;
  armed_at = none;
  expires_at = none;
  armed_by = none;
  publish_count = 0;
  block_reason = none;
  updated_at = 0;
}

abbrev pub small_database : Database
small_database = record {
  channels = just_gold ∷ [];
  targets = demo_target ∷ [];
  routes = plain_route 2 ∷ plain_route 1 ∷ [];
  listener_states = [];
  events = [];
  next_route_id = 3;
  next_channel_id = 9;
  is_connected = true;
}

small-RoutesInv : RoutesInv small_database
small-RoutesInv = record {
  distinct = (refl, (refl, tt));
  fresh = (omega arith, (omega arith, tt));
  one_arm = omega arith;
}

-- Both routes are armed, one after the other, and a third is created.
abbrev arming_run : List (ℕ × RouteOp)
arming_run =
    (100, arm 1)
    ∷ (200, arm 2)
    ∷ (300, create (codes "third") 1 1)
    ∷ (400, consume 1)
    ∷ (500, arm 2)
    ∷ []

apply_all-one_arm_example : count_arms (apply_all arming_run small_database).routes ≤ 1
apply_all-one_arm_example = apply_all-one_arm arming_run small_database small-RoutesInv

-- The channel and the target of the routes cannot be deleted, a new channel can.
abbrev table_run : List TableOp
table_run =
    sync_channels ((codes "-1002", codes "Silver") ∷ (codes "-1001", codes "Gold") ∷ [])
    ∷ remove_channel 1
    ∷ on_routes 100 (create (codes "third") 9 1)
    ∷ remove_target 1
    ∷ change_channel 9 (some true) none
    ∷ on_routes 200 (delete 1)
    ∷ []

run_on_tables-joins_example :
    is_some (get_route_start_context 3 (run_on_tables table_run small_database))
    ≡ is_some (find_route 3 (run_on_tables table_run small_database).routes)
run_on_tables-joins_example = run_on_tables-joins table_run small_database 3 (refl, (refl, tt))

abbrev sample_arm : Arm
sample_arm = record { mode = armed; expires_at = some 1000; publish_count = 0 }

permission_lem_example : (evaluate_real_publish_permission sample_arm true false 999 ≡ none) ↔ (
    (sample_arm.mode ≡ armed)
    × (true ≡ true)
    × (false ≡ false)
    × Before 999 (some 1000)
    × (sample_arm.publish_count ≡ 0))
permission_lem_example = permission_lem sample_arm true false 999

arm_row-window_example :
    (evaluate_real_publish_permission
        (arm_of (
          arm_row 100
            (100 + candidate_test_ttl_seconds)
            (codes "local_operator")
            100
            (plain_route 1)))
        true
        false
        999
      ≡ none)
    ↔ (999 < 100 + 900)
arm_row-window_example = arm_row-window (plain_route 1) (codes "local_operator") 100 100 999

abbrev sample_arm_route : ArmRoute
sample_arm_route = record {
  is_enabled = true;
  channel_title = codes "JustGold";
  name = codes "route";
  mode = observer_only;
}

abbrev sample_arm_target : ArmTarget
sample_arm_target = record {
  is_enabled = true;
  account_mode = codes "DEMO";
  expected_account_type = codes "DEMO";
  execution_permission = codes "LOCKED";
  magic_number = 91001;
  chart_symbol = codes "XAUUSD";
  seed_filename = codes "br_d0e_justgold_seed.txt";
  details_filename = codes "br_d0e_justgold_details.txt";
  broker_label = codes "VantageMarkets-Demo";
  terminal_data_path = codes "C:\\Terminal\\D0E8209F77C8CF37AD8BF550E51FF075";
}

-- The arm is permitted, and a second one at the same time is not.
first_arm : count_arms (arm_route 100 1 small_database).1.routes ≡ 1
unfolding arm_route get_route_detail validate_arm_eligibility count_arms_except
    arm_candidate_test_route
first_arm = refl
