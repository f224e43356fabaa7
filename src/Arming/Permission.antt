-- ===== src/Arming/Permission.antt =====
-- candidate_test_arm_service.py: what arming asks for, and when an arm permits a publication.
use basket_recovery_ea.Base.{ℕ, ◌+◌, ◌<◌, ◌≡◌, Bool, true, false, Option, none, some, arith, ◌↔◌}
use basket_recovery_ea.Base.Text.{Text}
use basket_recovery_ea.CandidateTest.{
  Arm, armed, candidate_test_ttl_seconds, evaluate_real_publish_permission, is_arm_expired,
}
use basket_recovery_ea.Store.Tables.{Route}
use basket_recovery_ea.Store.Arms.{arm_of, arm_row}

abbrev pub Before : ℕ → Option ℕ → Type 0
Before now none = ⊥
Before now (some t) = now < t

-- A real publication is permitted exactly if the route is armed, its listener runs, the run is not
-- dry, it has a time of expiry that is still to come, and its count of publications is zero.
pub permission_lem :
    (arm : Arm) (listener_running dry_run : Bool) (now : ℕ)
    → (evaluate_real_publish_permission arm listener_running dry_run now ≡ none) ↔ (
        (arm.mode ≡ armed)
        × (listener_running ≡ true)
        × (dry_run ≡ false)
        × Before now arm.expires_at
        × (arm.publish_count ≡ 0))
unfolding evaluate_real_publish_permission is_arm_expired
permission_lem arm listener_running dry_run now = ground arith

-- A row that is armed at a time with the 900 seconds of its schedule permits a real publication,
-- while its listener runs and the run is not dry, exactly at the times before 900 seconds are
-- over.
pub arm_row-window :
    (r : Route) (by : Text) (armed_at now later : ℕ)
    → (evaluate_real_publish_permission
          (arm_of (arm_row armed_at (armed_at + candidate_test_ttl_seconds) by now r))
          true
          false
          later
        ≡ none)
      ↔ (later < armed_at + 900)
unfolding evaluate_real_publish_permission is_arm_expired
arm_row-window r by armed_at now later = ground arith
