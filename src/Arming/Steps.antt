-- ===== src/Arming/Steps.antt =====
-- The operations on routes as steps, and runs of them: dashboard_api.py and dashboard_store.py.
use basket_recovery_ea.Base.{ℕ, Bool, Option, List, [], ◌∷◌}
use basket_recovery_ea.Base.Text.{Text}
use basket_recovery_ea.Store.Tables.{Database}
use basket_recovery_ea.Store.Arms.{
  consume_candidate_test_publish, block_candidate_test_route, expire_candidate_test_arms,
}
use basket_recovery_ea.Store.Routes.{delete_route, update_route, create_route}
use basket_recovery_ea.Store.OneArm.{after_store}
use basket_recovery_ea.Arming.{arm_route, disarm_route}

-- The operations that change the table of routes, each at the time of its call.
pub data RouteOp : Type 0 where
  arm disarm consume expire delete : ℕ → RouteOp
  block : ℕ → Text → RouteOp
  update : ℕ → Option Text → Option Bool → RouteOp
  create : Text → ℕ → ℕ → RouteOp

unfoldable pub apply : ℕ → RouteOp → Database → Database
apply now (arm i) db = (arm_route now i db).1
apply now (disarm i) db = (disarm_route now i db).1
apply now (consume i) db = after_store db (consume_candidate_test_publish i now db)
apply now (expire i) db = expire_candidate_test_arms now db
apply now (delete i) db = after_store db (delete_route i db)
apply now (block i reason) db = after_store db (block_candidate_test_route i reason now db)
apply now (update i name is_enabled) db = after_store db (update_route i name is_enabled now db)
apply now (create name c t) db = after_store db (create_route name c t now db)

-- A run: each operation with the time of its call.
abbrev pub apply_all : List (ℕ × RouteOp) → Database → Database
apply_all [] db = db
apply_all ((now, op) ∷ ops) db = apply_all ops (apply now op db)
