-- ===== src/Store/Channels.antt =====
-- dashboard_store.py: the operations on the table of channels, and the deletion of a target. Of a
-- channel the model keeps what routes and listeners read; the count on the Telegram connection,
-- which the operations refresh, is the length of the table.
use basket_recovery_ea.Base.{
  ℕ, suc, Bool, false, not, Option, none, some, List, [], ◌∷◌, ◌==◌, if◌then◌else◌, any, select,
}
use basket_recovery_ea.Base.Text.{Text, text_eq}
use basket_recovery_ea.Store.Tables.{
  Channel, Route, Database, Stored, stored, refused, find_channel, find_target, channel_not_found,
  target_not_found, channel_has_routes, target_has_routes, nothing_to_update,
}

-- `UPDATE tracked_channels SET … WHERE …`
unfoldable pub update_channels :
    (Channel → Bool) → (Channel → Channel) → List Channel → List Channel
update_channels test change [] = []
update_channels test change (c ∷ cs) =
    (if test c then change c else c) ∷ update_channels test change cs

abbrev pub has_telegram_id : Text → Channel → Bool
has_telegram_id telegram_id c = text_eq c.telegram_channel_id telegram_id

-- `INSERT INTO tracked_channels`: the channel is not tracked yet.
unfoldable pub insert_channel : Text → Text → Database → Database
insert_channel telegram_id title db = record db {
  channels =
      record {
        id = db.next_channel_id;
        telegram_channel_id = telegram_id;
        title = title;
        is_tracking = false;
      }
      ∷ db.channels;
  next_channel_id = suc db.next_channel_id;
}

-- One channel of a list that Telegram gave.
unfoldable pub sync_channel : Text → Text → Database → Database
unfolding update_channels insert_channel text_eq
sync_channel telegram_id title db =
    if any (has_telegram_id telegram_id) db.channels
    then (record db {
      channels =
          update_channels (has_telegram_id telegram_id) (λ c. record c { title = title })
            db.channels;
    })
    else insert_channel telegram_id title db

-- `sync_telegram_channels`
unfoldable pub sync_telegram_channels : List (Text × Text) → Database → Database
unfolding sync_channel
sync_telegram_channels [] db = db
sync_telegram_channels ((telegram_id, title) ∷ channels) db =
    sync_telegram_channels channels (sync_channel telegram_id title db)

-- `INSERT OR IGNORE`
unfoldable pub import_channel : Text → Text → Database → Database
unfolding insert_channel text_eq
import_channel telegram_id title db =
    if any (has_telegram_id telegram_id) db.channels
    then db
    else insert_channel telegram_id title db

-- `import_demo_channels`, at its list of channels.
unfoldable pub import_demo_channels : List (Text × Text) → Database → Database
unfolding import_channel
import_demo_channels [] db = db
import_demo_channels ((telegram_id, title) ∷ channels) db =
    import_demo_channels channels (import_channel telegram_id title db)

abbrev pub channel_has_id : ℕ → Channel → Bool
channel_has_id i c = c.id == i

abbrev with_updates : Option Bool → Option Text → Channel → Channel
with_updates is_tracking title c = record c {
  is_tracking = elim is_tracking [ none ↦ c.is_tracking | some b ↦ b ];
  title = elim title [ none ↦ c.title | some t ↦ t ];
}

abbrev pub update_found : ℕ → (Channel → Channel) → Option Channel → Database → Stored Channel
update_found i change none db = refused channel_not_found
update_found i change (some c) db =
    stored (change c)
      (record db { channels = update_channels (channel_has_id i) change db.channels })

-- `update_channel`
unfoldable pub update_channel : ℕ → Option Bool → Option Text → Database → Stored Channel
unfolding update_channels
update_channel i none none db = refused nothing_to_update
update_channel i (some b) title db =
    update_found i (with_updates (some b) title) (find_channel i db.channels) db
update_channel i none (some title) db =
    update_found i (with_updates none (some title)) (find_channel i db.channels) db

abbrev pub is_on_channel : ℕ → Route → Bool
is_on_channel i r = r.channel_id == i

abbrev pub is_on_target : ℕ → Route → Bool
is_on_target i r = r.target_id == i

-- `delete_channel`
unfoldable pub delete_channel : ℕ → Database → Stored (Unit {0})
delete_channel i db =
    if any (is_on_channel i) db.routes
    then refused channel_has_routes
    else elim (find_channel i db.channels) [
      | none ↦ refused channel_not_found
      | some c ↦ stored tt (record db { channels = select (λ c'. not (c'.id == i)) db.channels })
    ]

-- `delete_target`
unfoldable pub delete_target : ℕ → Database → Stored (Unit {0})
delete_target i db =
    if any (is_on_target i) db.routes
    then refused target_has_routes
    else elim (find_target i db.targets) [
      | none ↦ refused target_not_found
      | some t ↦ stored tt (record db { targets = select (λ t'. not (t'.id == i)) db.targets })
    ]
