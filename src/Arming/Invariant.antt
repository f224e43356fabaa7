-- ===== src/Arming/Invariant.antt =====
-- The candidate-test arms under every operation on routes.
use basket_recovery_ea.Base.{
  ℕ, ◌+◌, ◌≤◌, Bool, not, ◌≡◌, refl, inl, inr, Option, none, some, List, [], ◌∷◌, arith, ◌==◌,
  Option-cases, Bool-cases, any, is_some, ◌&&◌,
}
use basket_recovery_ea.Base.Text.{Text, strip}
use basket_recovery_ea.CandidateTest.{
  ArmRoute, ArmTarget, validate_arm_eligibility, build_arm_schedule, candidate_test_ttl_seconds,
}
use basket_recovery_ea.Store.Tables.{
  Route, Database, Stored, stored, refused, find_route, find_channel, find_target,
}
use basket_recovery_ea.Store.Arms.{
  RouteDetail, arm_row, count_arms_except, get_route_detail, get_route_start_context,
  arm_candidate_test_route, disarm_candidate_test_route, consume_candidate_test_publish,
  block_candidate_test_route, expire_candidate_test_arms,
}
use basket_recovery_ea.Store.Routes.{
  delete_route, update_route, create_route, insert_route, inserted, clashes, update_row,
  is_name_taken, is_some_field, check_target,
}
use basket_recovery_ea.Store.OneArm.{
  RoutesInv, count_arms, after_store, select-Distinct, select-fresh, count_arms-select,
  find_route-fresh, fresh-suc, update_one-RoutesInv, calm-RoutesInv, expire-RoutesInv,
  count_arms-one,
}
use basket_recovery_ea.Arming.{
  arm_route, disarm_route, commit, arm_detail, arm_if, as_arm_route, as_arm_target, local_operator,
}
use basket_recovery_ea.Arming.Steps.{
  RouteOp, apply, apply_all, arm, disarm, consume, expire, delete, block, update, create,
}

-- A check that passes has seen no other armed route.
eligible-alone :
    (r : ArmRoute) (t : ArmTarget) (n : ℕ) → validate_arm_eligibility r t n ≡ none → n ≡ 0
unfolding validate_arm_eligibility
eligible-alone r t n h = elim (Bool-cases (n == 0)) [
  | inl e ↦ ground (arith)
  | inr e ↦ ground (arith)
]

commit_arm-RoutesInv :
    (i armed_at expires_at now : ℕ) (by : Text) (db : Database)
    → count_arms_except i db.routes ≡ 0
    → RoutesInv db
    → RoutesInv (after_store db (arm_candidate_test_route i armed_at expires_at by now db))
unfolding arm_candidate_test_route
commit_arm-RoutesInv i armed_at expires_at now by db alone v =
    let change = arm_row armed_at expires_at by now in
    update_one-RoutesInv i change db (λ r. refl)
      (omega (arith, count_arms-one change i db.routes v.distinct, alone)) v

disarm-RoutesInv :
    (i now : ℕ) (db : Database)
    → RoutesInv db
    → RoutesInv (after_store db (disarm_candidate_test_route i now db))
unfolding disarm_candidate_test_route
disarm-RoutesInv i now db = calm-RoutesInv i _ db (λ r. refl) (λ r h. ground arith)

consume-RoutesInv :
    (i now : ℕ) (db : Database)
    → RoutesInv db
    → RoutesInv (after_store db (consume_candidate_test_publish i now db))
unfolding consume_candidate_test_publish
consume-RoutesInv i now db = calm-RoutesInv i _ db (λ r. refl) (λ r h. ground arith)

block-RoutesInv :
    (i now : ℕ) (reason : Text) (db : Database)
    → RoutesInv db
    → RoutesInv (after_store db (block_candidate_test_route i reason now db))
unfolding block_candidate_test_route
block-RoutesInv i now reason db = calm-RoutesInv i _ db (λ r. refl) (λ r h. ground arith)

update-RoutesInv :
    (i now : ℕ) (name : Option Text) (is_enabled : Option Bool) (db : Database)
    → RoutesInv db
    → RoutesInv (after_store db (update_route i name is_enabled now db))
unfolding update_route
update-RoutesInv i now name is_enabled db v =
    elim (Bool-cases (not (is_some_field name is_enabled))) [
      | inl e ↦ rw (e, after_store) v
      | inr e ↦
          elim (Bool-cases (is_some (find_route i db.routes) && is_name_taken i name db.routes)) [
            | inl e' ↦ rw (e, e', after_store) v
            | inr e' ↦
                rw (e, e')
                  (calm-RoutesInv i (update_row name is_enabled now) db (λ r. refl) (λ r h. h) v)
          ]
    ]

delete-RoutesInv :
    (i : ℕ) (db : Database) → RoutesInv db → RoutesInv (after_store db (delete_route i db))
unfolding delete_route
delete-RoutesInv i db v =
    let keep : Route → Bool = λ r'. not (r'.id == i) in
    elim (Option-cases (find_route i db.routes)) [
      | inl e ↦ rw (e, after_store) v
      | inr (r, e) ↦
          rw (e, after_store)
            (record {
              distinct = select-Distinct keep db.routes v.distinct;
              fresh = select-fresh keep db.next_route_id db.routes v.fresh;
              one_arm = omega (arith, count_arms-select keep db.routes, v.one_arm);
            })
    ]

insert-RoutesInv :
    (name : Text) (c t now : ℕ) (db : Database)
    → RoutesInv db
    → RoutesInv (after_store db (insert_route name c t now db))
unfolding insert_route
insert-RoutesInv name c t now db v =
    let grown : RoutesInv (inserted name c t now db) = record {
      distinct = (find_route-fresh db.next_route_id db.routes v.fresh, v.distinct);
      fresh = (omega arith, fresh-suc db.next_route_id db.routes v.fresh);
      one_arm = omega (arith, v.one_arm);
    } in
    elim (Bool-cases (any (clashes (strip name) c t) db.routes)) [
      | inl e ↦ rw (e, after_store) v
      | inr e ↦ rw (e, after_store) grown
    ]

create-RoutesInv :
    (name : Text) (c t now : ℕ) (db : Database)
    → RoutesInv db
    → RoutesInv (after_store db (create_route name c t now db))
unfolding create_route check_target
create-RoutesInv name c t now db v = elim (Option-cases (find_channel c db.channels)) [
  | inl e ↦ rw (e, after_store) v
  | inr (channel, e) ↦ elim (Option-cases (find_target t db.targets)) [
    | inl e' ↦ rw (e, e', after_store) v
    | inr (target, e') ↦ elim (Bool-cases target.observer_only) [
      | inl b ↦ rw (e, e', b, after_store) (insert-RoutesInv name c t now db v)
      | inr b ↦ rw (e, e', b, after_store) v
    ]
  ]
]

commit-RoutesInv :
    (db : Database) (result : Stored Route)
    → RoutesInv (after_store db result)
    → RoutesInv (commit db result).1
commit-RoutesInv db (stored r db') v = v
commit-RoutesInv db (refused e) v = v

arm_if-RoutesInv :
    (i now n : ℕ) (r : ArmRoute) (t : ArmTarget) (db : Database)
    → n ≡ count_arms_except i db.routes
    → RoutesInv db
    → RoutesInv (arm_if now i (validate_arm_eligibility r t n) db).1
unfolding arm_if build_arm_schedule get_route_detail
arm_if-RoutesInv i now n r t db e v = elim (Option-cases (validate_arm_eligibility r t n)) [
  | inl good ↦
      let expires_at = now + candidate_test_ttl_seconds in
      let row = arm_candidate_test_route i now expires_at local_operator now db in
      rw good (
        expire-RoutesInv now (commit db row).1 (
          commit-RoutesInv db row (
            commit_arm-RoutesInv i now expires_at now local_operator db
              (ground (arith, eligible-alone r t n good, e)) v)))
  | inr (reason, bad) ↦ rw bad v
]

arm_detail-RoutesInv :
    (i now : ℕ) (d : Option RouteDetail) (db : Database)
    → RoutesInv db
    → RoutesInv (arm_detail now i d db).1
unfolding arm_detail
arm_detail-RoutesInv i now none db v = v
arm_detail-RoutesInv i now (some d) db v =
    arm_if-RoutesInv i now (count_arms_except i db.routes) (as_arm_route d) (as_arm_target d) db
      refl v

arm_route-RoutesInv : (i now : ℕ) (db : Database) → RoutesInv db → RoutesInv (arm_route now i db).1
unfolding arm_route get_route_detail
arm_route-RoutesInv i now db v =
    let db' = expire_candidate_test_arms now db in
    arm_detail-RoutesInv i now (get_route_start_context i db') db' (expire-RoutesInv now db v)

disarm_route-RoutesInv :
    (i now : ℕ) (db : Database) → RoutesInv db → RoutesInv (disarm_route now i db).1
unfolding disarm_route get_route_detail
disarm_route-RoutesInv i now db v =
    let row = disarm_candidate_test_route i now db in
    expire-RoutesInv now (commit db row).1 (commit-RoutesInv db row (disarm-RoutesInv i now db v))

-- Every operation on routes, refused or not, keeps the keys distinct and below the next key, and
-- leaves at most one route armed.
pub apply-RoutesInv :
    (now : ℕ) (op : RouteOp) (db : Database) → RoutesInv db → RoutesInv (apply now op db)
unfolding apply
apply-RoutesInv now (arm i) db v = arm_route-RoutesInv i now db v
apply-RoutesInv now (disarm i) db v = disarm_route-RoutesInv i now db v
apply-RoutesInv now (consume i) db v = consume-RoutesInv i now db v
apply-RoutesInv now (expire i) db v = expire-RoutesInv now db v
apply-RoutesInv now (delete i) db v = delete-RoutesInv i db v
apply-RoutesInv now (block i reason) db v = block-RoutesInv i now reason db v
apply-RoutesInv now (update i name is_enabled) db v = update-RoutesInv i now name is_enabled db v
apply-RoutesInv now (create name c t) db v = create-RoutesInv name c t now db v

-- From a database with distinct keys below the next key and at most one armed route, every run of
-- the operations arm, disarm, consume, expire, delete, block, update and create, at any times and
-- refused or not, leaves at most one route armed.
pub apply_all-one_arm :
    (ops : List (ℕ × RouteOp)) (db : Database)
    → RoutesInv db
    → count_arms (apply_all ops db).routes ≤ 1
apply_all-one_arm [] db v = v.one_arm
apply_all-one_arm ((now, op) ∷ ops) db v =
    apply_all-one_arm ops (apply now op db) (apply-RoutesInv now op db v)
