-- ===== src/Store/Joined/Deletion.antt =====
-- dashboard_store.py: no deletion takes the channel or the target of a route away.
use basket_recovery_ea.Base.{
  ℕ, ◌≡◌, refl, Bool, false, not, inl, inr, Option, none, some, List, [], ◌∷◌, arith, ◌==◌, any,
  select, Option-cases, Bool-cases,
}
use basket_recovery_ea.Base.Text.{Text}
use basket_recovery_ea.Store.Tables.{Channel, Target, Route, Database, find_channel, find_target}
use basket_recovery_ea.Store.OneArm.{after_store}
use basket_recovery_ea.Store.Channels.{
  channel_has_id, update_channel, update_found, is_on_channel, is_on_target, delete_channel,
  delete_target,
}
use basket_recovery_ea.Store.Joined.{JoinedIn, AllJoined, update_channels-AllJoined}

find_channel-kept :
    (i c : ℕ) (cs : List Channel)
    → (c == i) ≡ false
    → find_channel c (select (λ c'. not (c'.id == i)) cs) ≡ find_channel c cs
find_channel-kept i c [] h = refl
find_channel-kept i c (x ∷ cs) h = ground (arith, h, find_channel-kept i c cs h)

find_target-kept :
    (i t : ℕ) (ts : List Target)
    → (t == i) ≡ false
    → find_target t (select (λ t'. not (t'.id == i)) ts) ≡ find_target t ts
find_target-kept i t [] h = refl
find_target-kept i t (x ∷ ts) h = ground (arith, h, find_target-kept i t ts h)

-- Joins survive where no route has the deleted row.
without_channel :
    (i : ℕ) (db : Database) (rs : List Route)
    → any (is_on_channel i) rs ≡ false
    → JoinedIn db rs
    → JoinedIn (record db { channels = select (λ c'. not (c'.id == i)) db.channels }) rs
without_channel i db [] h j = tt
without_channel i db (r ∷ rs) h j = elim (Bool-cases (is_on_channel i r)) [
  | inl e ↦ ground (arith, e, h)
  | inr e ↦ (
    ground (arith, j.0, find_channel-kept i r.channel_id db.channels e),
    without_channel i db rs (ground (arith, e, h)) j.1,
  )
]

without_target :
    (i : ℕ) (db : Database) (rs : List Route)
    → any (is_on_target i) rs ≡ false
    → JoinedIn db rs
    → JoinedIn (record db { targets = select (λ t'. not (t'.id == i)) db.targets }) rs
without_target i db [] h j = tt
without_target i db (r ∷ rs) h j = elim (Bool-cases (is_on_target i r)) [
  | inl e ↦ ground (arith, e, h)
  | inr e ↦ (
    ground (arith, j.0, find_target-kept i r.target_id db.targets e),
    without_target i db rs (ground (arith, e, h)) j.1,
  )
]

pub delete_channel-AllJoined :
    (i : ℕ) (db : Database) → AllJoined db → AllJoined (after_store db (delete_channel i db))
unfolding delete_channel
delete_channel-AllJoined i db j = elim (Bool-cases (any (is_on_channel i) db.routes)) [
  | inl e ↦ rw (e, after_store) j
  | inr e ↦ elim (Option-cases (find_channel i db.channels)) [
    | inl e' ↦ rw (e, e', after_store) j
    | inr (c, e') ↦ rw (e, e', after_store) (without_channel i db db.routes e j)
  ]
]

pub delete_target-AllJoined :
    (i : ℕ) (db : Database) → AllJoined db → AllJoined (after_store db (delete_target i db))
unfolding delete_target
delete_target-AllJoined i db j = elim (Bool-cases (any (is_on_target i) db.routes)) [
  | inl e ↦ rw (e, after_store) j
  | inr e ↦ elim (Option-cases (find_target i db.targets)) [
    | inl e' ↦ rw (e, e', after_store) j
    | inr (t, e') ↦ rw (e, e', after_store) (without_target i db db.routes e j)
  ]
]

update_found-AllJoined :
    (i : ℕ) (change : Channel → Channel) (found : Option Channel) (db : Database)
    → ((c : Channel) → (change c).id ≡ c.id)
    → AllJoined db
    → AllJoined (after_store db (update_found i change found db))
update_found-AllJoined i change none db same j = j
update_found-AllJoined i change (some c) db same j =
    update_channels-AllJoined (channel_has_id i) change db same j

pub update_channel-AllJoined :
    (i : ℕ) (is_tracking : Option Bool) (title : Option Text) (db : Database)
    → AllJoined db
    → AllJoined (after_store db (update_channel i is_tracking title db))
unfolding update_channel
update_channel-AllJoined i none none db j = j
update_channel-AllJoined i (some b) title db j =
    update_found-AllJoined i _ (find_channel i db.channels) db (λ c. refl) j
update_channel-AllJoined i none (some title) db j =
    update_found-AllJoined i _ (find_channel i db.channels) db (λ c. refl) j
