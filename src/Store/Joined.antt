-- ===== src/Store/Joined.antt =====
-- dashboard_store.py: every route has its channel and its target, under the operations on each table.
pub mod Deletion
use basket_recovery_ea.Base.{
  ℕ, ◌≡◌, refl, ◌∙◌, Bool, true, ◌&&◌, inl, inr, List, [], ◌∷◌, arith, All, any, select, is_some,
  Option-cases, Bool-cases,
}
use basket_recovery_ea.Base.Text.{Text}
use basket_recovery_ea.Store.Tables.{
  Channel, Route, Database, find_route, find_channel, find_target,
}
use basket_recovery_ea.Store.Arms.{
  update_where, has_id, update_one, overdue, expire_row, expire_candidate_test_arms,
}
use basket_recovery_ea.Store.OneArm.{after_store}
use basket_recovery_ea.Store.Channels.{
  update_channels, has_telegram_id, insert_channel, sync_channel, import_channel,
}

-- The channel and the target of a route are in their tables.
abbrev pub has_join : Database → Route → Bool
has_join db r =
    is_some (find_channel r.channel_id db.channels) && is_some (find_target r.target_id db.targets)

abbrev pub JoinedIn : Database → List Route → Type 0
JoinedIn db rs = All (λ r. has_join db r ≡ true) rs

-- No route is left without its channel or its target.
abbrev pub AllJoined : Database → Type 0
AllJoined db = JoinedIn db db.routes

update-JoinedIn :
    (db : Database) (test : Route → Bool) (change : Route → Route)
    → ((r : Route) → has_join db (change r) ≡ has_join db r)
    → (rs : List Route) → JoinedIn db rs
    → JoinedIn db (update_where test change rs)
unfolding update_where
update-JoinedIn db test change same [] j = tt
update-JoinedIn db test change same (r ∷ rs) j = elim (Bool-cases (test r)) [
  | inl e ↦ rw e (same r ∙ j.0, update-JoinedIn db test change same rs j.1)
  | inr e ↦ rw e (j.0, update-JoinedIn db test change same rs j.1)
]

pub select-JoinedIn :
    (db : Database) (keep : Route → Bool) (rs : List Route)
    → JoinedIn db rs
    → JoinedIn db (select keep rs)
select-JoinedIn db keep [] j = tt
select-JoinedIn db keep (r ∷ rs) j = elim (Bool-cases (keep r)) [
  | inl e ↦ rw e (j.0, select-JoinedIn db keep rs j.1)
  | inr e ↦ rw e (select-JoinedIn db keep rs j.1)
]

-- What keeps a join that a table has keeps those of the routes.
pub JoinedIn-mono :
    (db db' : Database) (rs : List Route)
    → ((r : Route) → has_join db r ≡ true → has_join db' r ≡ true)
    → JoinedIn db rs
    → JoinedIn db' rs
JoinedIn-mono db db' [] keeps j = tt
JoinedIn-mono db db' (r ∷ rs) keeps j = (keeps r j.0, JoinedIn-mono db db' rs keeps j.1)

-- An update of routes that leaves their keys alone.
pub update_one-AllJoined :
    (i : ℕ) (change : Route → Route) (db : Database)
    → ((r : Route) → has_join db (change r) ≡ has_join db r)
    → AllJoined db
    → AllJoined (after_store db (update_one i change db))
unfolding update_one
update_one-AllJoined i change db same j = elim (Option-cases (find_route i db.routes)) [
  | inl e ↦ rw (e, after_store) j
  | inr (r, e) ↦ rw (e, after_store) (update-JoinedIn db (has_id i) change same db.routes j)
]

pub expire-AllJoined :
    (now : ℕ) (db : Database) → AllJoined db → AllJoined (expire_candidate_test_arms now db)
unfolding expire_candidate_test_arms
expire-AllJoined now db j =
    update-JoinedIn db (overdue now) (expire_row now) (λ r. refl) db.routes j

-- A channel keeps its id, whatever else of it is changed.
find_channel-update :
    (test : Channel → Bool) (change : Channel → Channel)
    → ((c : Channel) → (change c).id ≡ c.id)
    → (i : ℕ) (cs : List Channel)
    → is_some (find_channel i (update_channels test change cs)) ≡ is_some (find_channel i cs)
unfolding update_channels
find_channel-update test change same i [] = refl
find_channel-update test change same i (c ∷ cs) =
    ground (arith, same c, find_channel-update test change same i cs)

pub update_channels-AllJoined :
    (test : Channel → Bool) (change : Channel → Channel) (db : Database)
    → ((c : Channel) → (change c).id ≡ c.id)
    → AllJoined db
    → AllJoined (record db { channels = update_channels test change db.channels })
update_channels-AllJoined test change db same j =
    JoinedIn-mono db (record db { channels = update_channels test change db.channels }) db.routes
      (λ r h. ground (arith, h, find_channel-update test change same r.channel_id db.channels)) j

insert-AllJoined :
    (telegram_id title : Text) (db : Database)
    → AllJoined db
    → AllJoined (insert_channel telegram_id title db)
unfolding insert_channel
insert-AllJoined telegram_id title db j =
    JoinedIn-mono db (insert_channel telegram_id title db) db.routes (λ r h. ground (arith, h)) j

pub sync-AllJoined :
    (telegram_id title : Text) (db : Database)
    → AllJoined db
    → AllJoined (sync_channel telegram_id title db)
unfolding sync_channel
sync-AllJoined telegram_id title db j =
    elim (Bool-cases (any (has_telegram_id telegram_id) db.channels)) [
      | inl e ↦ rw e (
          update_channels-AllJoined (has_telegram_id telegram_id) (λ c. record c { title = title })
            db (λ c. refl) j)
      | inr e ↦ rw e (insert-AllJoined telegram_id title db j)
    ]

pub import-AllJoined :
    (telegram_id title : Text) (db : Database)
    → AllJoined db
    → AllJoined (import_channel telegram_id title db)
unfolding import_channel
import-AllJoined telegram_id title db j =
    elim (Bool-cases (any (has_telegram_id telegram_id) db.channels)) [
      | inl e ↦ rw e j
      | inr e ↦ rw e (insert-AllJoined telegram_id title db j)
    ]
