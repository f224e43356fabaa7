-- ===== src/Listener/Delivery.antt =====
-- route_listener_service.py: a message of Telegram on its way to the listeners of its channel, and
-- the reports on the listeners.
use basket_recovery_ea.Base.{
  ℕ, Bool, false, Option, none, some, List, [], ◌∷◌, if◌then◌else◌, any, leb,
}
use basket_recovery_ea.Base.Text.{Text, codes, text_eq}
use basket_recovery_ea.Bridge.Handler.{TelegramInboundMessage}
use basket_recovery_ea.Store.Tables.{Database, ListenerState}
use basket_recovery_ea.Store.Listeners.{upsert_route_listener_state, add_route_event}
use basket_recovery_ea.Listener.{
  Session, Moment, Ending, completed, store_error, bridge_error, process_message, Step, store, ◌>>◌,
}
use basket_recovery_ea.Listener.Channel.{canonical_channel_key}
use basket_recovery_ea.Listener.Manager.{ActiveRoute, Manager, id_of, change, happened}

abbrev pub on_channel : Text → ActiveRoute → Bool
on_channel key a = text_eq a.channel_key key

-- `has_active_channel`
unfoldable pub has_active_channel : Text → Manager → Bool
unfolding text_eq
has_active_channel key m = any (on_channel key) m.active

-- The listeners still to come, and what became of the database and of the listeners before.
abbrev pub Delivered : Type 0
Delivered = Ending × Database × List ActiveRoute

abbrev pub kept : ActiveRoute → Delivered → Delivered
kept a (ending, db, rest) = (ending, db, a ∷ rest)

-- An exception of one listener keeps the message from the next ones.
abbrev pub go_on :
    ActiveRoute → Ending × Session → List ActiveRoute → (Database → Delivered) → Delivered
go_on a (completed, s) rest next = kept (record a { runtime = s.runtime }) (next s.db)
go_on a (store_error e, s) rest next =
    (store_error e, s.db, record a { runtime = s.runtime } ∷ rest)
go_on a (bridge_error e, s) rest next =
    (bridge_error e, s.db, record a { runtime = s.runtime } ∷ rest)

-- A loop over the listeners of a channel.
unfoldable pub for_channel : Text → (ActiveRoute → Step) → List ActiveRoute → Database → Delivered
unfolding text_eq
for_channel key step [] db = (completed, db, [])
for_channel key step (a ∷ rest) db =
    if on_channel key a
    then go_on a (step a (record { db = db; runtime = a.runtime })) rest (for_channel key step rest)
    else kept a (for_channel key step rest db)

abbrev pub into : Manager → Delivered → Ending × Manager
into m (ending, db, active) = (ending, record m { db = db; active = active })

-- `_record_event` with the arguments of `record_telethon_handler_error`.
unfoldable pub handler_error : ℕ → Step
unfolding upsert_route_listener_state add_route_event
handler_error now s =
    let i = s.runtime.route_id in
    let summary = codes "Telegram mesaj işleyicisi hata verdi." in
    let code = codes "TELETHON_HANDLER_ERROR" in
    let status = codes "PUBLISH_FAILED" in
    (do
      store (upsert_route_listener_state i (change status summary (some code) none) now)
      store (add_route_event (happened i code status (some s.runtime.target_id) summary now)))
      s

-- `record_telethon_handler_error`
unfoldable pub record_telethon_handler_error : Text → ℕ → Manager → Ending × Manager
unfolding for_channel handler_error
record_telethon_handler_error key now m =
    into m (for_channel key (λ a. handler_error now) m.active m.db)

abbrev pub report_failure : Text → ℕ → Ending × Manager → Ending × Manager
report_failure key now (completed, m) = (completed, m)
report_failure key now (store_error e, m) = record_telethon_handler_error key now m
report_failure key now (bridge_error e, m) = record_telethon_handler_error key now m

-- `pick` as in `process_message`; `moment` gives the clock readings for each route.
module _ (pick : List Text → Option Text) (moment : ℕ → Moment) (now : ℕ) where
  abbrev pub processing : TelegramInboundMessage → ActiveRoute → Step
  processing message a = process_message a.settings pick message (moment (id_of a))

  unfoldable pub deliver_inbound_message :
      Text → TelegramInboundMessage → Manager → Ending × Manager
  unfolding for_channel process_message
  deliver_inbound_message key message m =
      into m (for_channel key (processing message) m.active m.db)

  abbrev pub deliver_keyed : Option Text → TelegramInboundMessage → Manager → Ending × Manager
  deliver_keyed none message m = (completed, m)
  deliver_keyed (some key) message m =
      if has_active_channel key m
      then report_failure key now (deliver_inbound_message key message m)
      else (completed, m)

  -- `on_new_message`, for an event whose chat id is the message's channel id.
  unfoldable pub on_new_message : TelegramInboundMessage → Manager → Ending × Manager
  unfolding canonical_channel_key has_active_channel deliver_inbound_message
      record_telethon_handler_error
  on_new_message message m = deliver_keyed (canonical_channel_key message.channel_id) message m

abbrev insert_id : ℕ → List ℕ → List ℕ
insert_id i [] = i ∷ []
insert_id i (j ∷ rest) = if leb i j then i ∷ j ∷ rest else j ∷ insert_id i rest

abbrev pub sorted_ids : List ActiveRoute → List ℕ
sorted_ids [] = []
sorted_ids (a ∷ rest) = insert_id (id_of a) (sorted_ids rest)

-- `UPDATE route_listener_state … WHERE listener_status != 'LISTENER_STOPPED'`
abbrev pub stop_stale : Text → ℕ → List ListenerState → List ListenerState
stop_stale reason now [] = []
stop_stale reason now (s ∷ rest) =
    (if text_eq s.listener_status (codes "LISTENER_STOPPED") then s else record s {
      listener_status = codes "LISTENER_STOPPED";
      last_signal_status = some reason;
      updated_at = now;
    })
    ∷ stop_stale reason now rest

-- `_normalize_stale_listener_states`, which the constructor calls.
unfoldable pub normalize_stale_listener_states : Text → ℕ → Database → Database
unfolding text_eq
normalize_stale_listener_states reason now db = record db {
  listener_states = stop_stale reason now db.listener_states;
}

-- The constructor.
unfoldable pub new_manager : Bool → Text → ℕ → Database → Manager
unfolding normalize_stale_listener_states
new_manager normalize_stale reason now db = record {
  db = if normalize_stale then normalize_stale_listener_states reason now db else db;
  active = [];
  has_bridge = false;
}
