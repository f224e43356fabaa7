-- ===== src/Arming/Joined.antt =====
-- The operations on routes, channels and targets together: dashboard_api.py and dashboard_store.py.
pub mod Runs
use basket_recovery_ea.Base.{
  ℕ, ◌+◌, ◌≡◌, refl, Bool, true, not, inl, inr, Option, none, some, List, [], ◌∷◌, arith, ◌==◌, any,
  is_some, Option-cases, Bool-cases, ◌&&◌,
}
use basket_recovery_ea.Base.Text.{Text, strip}
use basket_recovery_ea.CandidateTest.{BlockReason, build_arm_schedule, candidate_test_ttl_seconds}
use basket_recovery_ea.Store.Tables.{
  Route, Database, Stored, stored, refused, find_route, find_channel, find_target,
}
use basket_recovery_ea.Store.Arms.{
  RouteDetail, arm_row, get_route_detail, get_route_start_context, arm_candidate_test_route,
  disarm_candidate_test_route, expire_candidate_test_arms,
}
use basket_recovery_ea.Store.Routes.{
  delete_route, create_route, insert_route, inserted, clashes, check_target, update_route,
  update_row, is_name_taken, is_some_field,
}
use basket_recovery_ea.Store.OneArm.{after_store}
use basket_recovery_ea.Store.Channels.{
  sync_telegram_channels, import_demo_channels, update_channel, delete_channel, delete_target,
}
use basket_recovery_ea.Store.Joined.{
  AllJoined, update_one-AllJoined, expire-AllJoined, select-JoinedIn,
}
use basket_recovery_ea.Arming.{arm_route, disarm_route, commit, arm_detail, arm_if, local_operator}
use basket_recovery_ea.Arming.Steps.{RouteOp, apply}

-- The operations on the three tables.
pub data TableOp : Type 0 where
  on_routes : ℕ → RouteOp → TableOp
  sync_channels import_channels : List (Text × Text) → TableOp
  change_channel : ℕ → Option Bool → Option Text → TableOp
  remove_channel remove_target : ℕ → TableOp

unfoldable pub apply_to_tables : TableOp → Database → Database
unfolding apply
apply_to_tables (on_routes now op) db = apply now op db
apply_to_tables (sync_channels channels) db = sync_telegram_channels channels db
apply_to_tables (import_channels channels) db = import_demo_channels channels db
apply_to_tables (change_channel i is_tracking title) db =
    after_store db (update_channel i is_tracking title db)
apply_to_tables (remove_channel i) db = after_store db (delete_channel i db)
apply_to_tables (remove_target i) db = after_store db (delete_target i db)

abbrev pub run_on_tables : List TableOp → Database → Database
run_on_tables [] db = db
run_on_tables (op ∷ ops) db = run_on_tables ops (apply_to_tables op db)

commit-AllJoined :
    (db : Database) (result : Stored Route)
    → AllJoined (after_store db result)
    → AllJoined (commit db result).1
commit-AllJoined db (stored r db') j = j
commit-AllJoined db (refused e) j = j

arm_if-AllJoined :
    (now i : ℕ) (reason : Option BlockReason) (db : Database)
    → AllJoined db
    → AllJoined (arm_if now i reason db).1
unfolding arm_if build_arm_schedule get_route_detail arm_candidate_test_route
arm_if-AllJoined now i (some reason) db j = j
arm_if-AllJoined now i none db j =
    let expires_at = now + candidate_test_ttl_seconds in
    let change = arm_row now expires_at local_operator now in
    let row = arm_candidate_test_route i now expires_at local_operator now db in
    expire-AllJoined now (commit db row).1
      (commit-AllJoined db row (update_one-AllJoined i change db (λ r. refl) j))

arm_detail-AllJoined :
    (now i : ℕ) (d : Option RouteDetail) (db : Database)
    → AllJoined db
    → AllJoined (arm_detail now i d db).1
unfolding arm_detail
arm_detail-AllJoined now i none db j = j
arm_detail-AllJoined now i (some d) db j = arm_if-AllJoined now i _ db j

pub arm_route-AllJoined :
    (now i : ℕ) (db : Database) → AllJoined db → AllJoined (arm_route now i db).1
unfolding arm_route get_route_detail
arm_route-AllJoined now i db j =
    let db' = expire_candidate_test_arms now db in
    arm_detail-AllJoined now i (get_route_start_context i db') db' (expire-AllJoined now db j)

pub disarm_route-AllJoined :
    (now i : ℕ) (db : Database) → AllJoined db → AllJoined (disarm_route now i db).1
unfolding disarm_route get_route_detail disarm_candidate_test_route
disarm_route-AllJoined now i db j =
    let row = disarm_candidate_test_route i now db in
    expire-AllJoined now (commit db row).1
      (commit-AllJoined db row (update_one-AllJoined i _ db (λ r. refl) j))

pub delete_route-AllJoined :
    (i : ℕ) (db : Database) → AllJoined db → AllJoined (after_store db (delete_route i db))
unfolding delete_route
delete_route-AllJoined i db j = elim (Option-cases (find_route i db.routes)) [
  | inl e ↦ rw (e, after_store) j
  | inr (r, e) ↦ rw (e, after_store) (select-JoinedIn db (λ r'. not (r'.id == i)) db.routes j)
]

-- The new route has the channel and the target that were looked up.
insert_route-AllJoined :
    (name : Text) (c t now : ℕ) (db : Database)
    → is_some (find_channel c db.channels) ≡ true
    → is_some (find_target t db.targets) ≡ true
    → AllJoined db
    → AllJoined (after_store db (insert_route name c t now db))
unfolding insert_route
insert_route-AllJoined name c t now db on_channel on_target j =
    let grown : AllJoined (inserted name c t now db) = (ground (arith, on_channel, on_target), j) in
    elim (Bool-cases (any (clashes (strip name) c t) db.routes)) [
      | inl e ↦ rw (e, after_store) j
      | inr e ↦ rw (e, after_store) grown
    ]

pub update_route-AllJoined :
    (i now : ℕ) (name : Option Text) (is_enabled : Option Bool) (db : Database)
    → AllJoined db
    → AllJoined (after_store db (update_route i name is_enabled now db))
unfolding update_route
update_route-AllJoined i now name is_enabled db j =
    elim (Bool-cases (not (is_some_field name is_enabled))) [
      | inl e ↦ rw (e, after_store) j
      | inr e ↦
          elim (Bool-cases (is_some (find_route i db.routes) && is_name_taken i name db.routes)) [
            | inl e' ↦ rw (e, e', after_store) j
            | inr e' ↦
                rw (e, e')
                  (update_one-AllJoined i (update_row name is_enabled now) db (λ r. refl) j)
          ]
    ]

pub create_route-AllJoined :
    (name : Text) (c t now : ℕ) (db : Database)
    → AllJoined db
    → AllJoined (after_store db (create_route name c t now db))
unfolding create_route check_target
create_route-AllJoined name c t now db j = elim (Option-cases (find_channel c db.channels)) [
  | inl e ↦ rw (e, after_store) j
  | inr (channel, e) ↦ elim (Option-cases (find_target t db.targets)) [
    | inl e' ↦ rw (e, e', after_store) j
    | inr (target, e') ↦ elim (Bool-cases target.observer_only) [
      | inl b ↦
          rw (e, e', b, after_store)
            (insert_route-AllJoined name c t now db (rw e refl) (rw e' refl) j)
      | inr b ↦ rw (e, e', b, after_store) j
    ]
  ]
]
