-- ===== src/Arming/Joined/Runs.antt =====
-- Runs of the operations on routes, channels and targets.
use basket_recovery_ea.Base.{
  ℕ, ◌≡◌, refl, true, inl, inr, some, List, [], ◌∷◌, arith, ◌==◌, is_some, Option-cases, Bool-cases,
}
use basket_recovery_ea.Base.Text.{Text}
use basket_recovery_ea.Store.Tables.{Route, Database, find_route, find_channel, find_target}
use basket_recovery_ea.Store.Arms.{
  get_route_start_context, join_route, join_channel, join_target, consume_candidate_test_publish,
  block_candidate_test_route,
}
use basket_recovery_ea.Store.Channels.{sync_telegram_channels, import_demo_channels}
use basket_recovery_ea.Store.Joined.{
  has_join, JoinedIn, AllJoined, update_one-AllJoined, expire-AllJoined, sync-AllJoined,
  import-AllJoined,
}
use basket_recovery_ea.Store.Joined.Deletion.{
  delete_channel-AllJoined, delete_target-AllJoined, update_channel-AllJoined,
}
use basket_recovery_ea.Arming.Steps.{
  RouteOp, apply, arm, disarm, consume, expire, delete, block, update, create,
}
use basket_recovery_ea.Arming.Joined.{
  TableOp, on_routes, sync_channels, import_channels, change_channel, remove_channel, remove_target,
  apply_to_tables, run_on_tables, arm_route-AllJoined, disarm_route-AllJoined,
  delete_route-AllJoined, update_route-AllJoined, create_route-AllJoined,
}

apply-AllJoined :
    (now : ℕ) (op : RouteOp) (db : Database) → AllJoined db → AllJoined (apply now op db)
unfolding apply consume_candidate_test_publish block_candidate_test_route
apply-AllJoined now (arm i) db j = arm_route-AllJoined now i db j
apply-AllJoined now (disarm i) db j = disarm_route-AllJoined now i db j
apply-AllJoined now (consume i) db j = update_one-AllJoined i _ db (λ r. refl) j
apply-AllJoined now (expire i) db j = expire-AllJoined now db j
apply-AllJoined now (delete i) db j = delete_route-AllJoined i db j
apply-AllJoined now (block i reason) db j = update_one-AllJoined i _ db (λ r. refl) j
apply-AllJoined now (update i name is_enabled) db j =
    update_route-AllJoined i now name is_enabled db j
apply-AllJoined now (create name c t) db j = create_route-AllJoined name c t now db j

sync_all-AllJoined :
    (channels : List (Text × Text)) (db : Database)
    → AllJoined db
    → AllJoined (sync_telegram_channels channels db)
unfolding sync_telegram_channels
sync_all-AllJoined [] db j = j
sync_all-AllJoined ((telegram_id, title) ∷ channels) db j =
    sync_all-AllJoined channels _ (sync-AllJoined telegram_id title db j)

import_all-AllJoined :
    (channels : List (Text × Text)) (db : Database)
    → AllJoined db
    → AllJoined (import_demo_channels channels db)
unfolding import_demo_channels
import_all-AllJoined [] db j = j
import_all-AllJoined ((telegram_id, title) ∷ channels) db j =
    import_all-AllJoined channels _ (import-AllJoined telegram_id title db j)

tables-AllJoined : (op : TableOp) (db : Database) → AllJoined db → AllJoined (apply_to_tables op db)
unfolding apply_to_tables
tables-AllJoined (on_routes now op) db j = apply-AllJoined now op db j
tables-AllJoined (sync_channels channels) db j = sync_all-AllJoined channels db j
tables-AllJoined (import_channels channels) db j = import_all-AllJoined channels db j
tables-AllJoined (change_channel i is_tracking title) db j =
    update_channel-AllJoined i is_tracking title db j
tables-AllJoined (remove_channel i) db j = delete_channel-AllJoined i db j
tables-AllJoined (remove_target i) db j = delete_target-AllJoined i db j

run-AllJoined :
    (ops : List TableOp) (db : Database) → AllJoined db → AllJoined (run_on_tables ops db)
run-AllJoined [] db j = j
run-AllJoined (op ∷ ops) db j = run-AllJoined ops (apply_to_tables op db) (tables-AllJoined op db j)

join_target-is_some :
    (r : Route) (db : Database) → has_join db r ≡ true → is_some (join_route db (some r)) ≡ true
unfolding join_route join_channel join_target
join_target-is_some r db h = elim (Option-cases (find_channel r.channel_id db.channels)) [
  | inl e ↦ ground (arith, e, h)
  | inr (c, e) ↦ elim (Option-cases (find_target r.target_id db.targets)) [
    | inl e' ↦ ground (arith, e, e', h)
    | inr (t, e') ↦ rw (e, e') refl
  ]
]

join_rows :
    (i : ℕ) (db : Database) (rs : List Route)
    → JoinedIn db rs
    → is_some (join_route db (find_route i rs)) ≡ is_some (find_route i rs)
unfolding join_route
join_rows i db [] j = refl
join_rows i db (r ∷ rs) j = elim (Bool-cases (r.id == i)) [
  | inl e ↦ rw e (join_target-is_some r db j.0)
  | inr e ↦ rw e (join_rows i db rs j.1)
]

-- From a database where every route has its channel and its target, after any operations on
-- routes, synchronizations, imports, changes and deletions of channels, and deletions of targets,
-- refused or not, the joined row of an id is found exactly if the table of routes has the id: no
-- route is lost from the joins.
pub run_on_tables-joins :
    (ops : List TableOp) (db : Database) (i : ℕ)
    → AllJoined db
    → is_some (get_route_start_context i (run_on_tables ops db))
      ≡ is_some (find_route i (run_on_tables ops db).routes)
unfolding get_route_start_context
run_on_tables-joins ops db i j =
    join_rows i (run_on_tables ops db) (run_on_tables ops db).routes (run-AllJoined ops db j)
