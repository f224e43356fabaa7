-- ===== src/Listener/Manager/Calls.antt =====
-- The calls of the manager, one after the other; a message changes nothing of which routes are
-- listened to.
use basket_recovery_ea.Base.{
  ℕ, ◌≡◌, refl, ap, ◌∙◌, inl, inr, Option, none, some, List, [], ◌∷◌, arith, Bool-cases,
}
use basket_recovery_ea.Base.Text.{Text}
use basket_recovery_ea.Bridge.Handler.{TelegramInboundMessage}
use basket_recovery_ea.Store.Tables.{Database}
use basket_recovery_ea.Store.Listeners.{upsert_route_listener_state, add_route_event}
use basket_recovery_ea.Listener.{
  Session, Moment, Ending, completed, store_error, bridge_error, Step,
}
use basket_recovery_ea.Listener.Keeps.{process_message-Keeps}
use basket_recovery_ea.Listener.Manager.{
  ManagerConfig, ActiveRoute, Manager, id_of, start_route, stop_route,
}
use basket_recovery_ea.Listener.Channel.{canonical_channel_key}
use basket_recovery_ea.Listener.Delivery.{
  Delivered, on_channel, for_channel, handler_error, record_telethon_handler_error, report_failure,
  processing, deliver_inbound_message, on_new_message, has_active_channel, go_on, deliver_keyed,
}
use basket_recovery_ea.Listener.Manager.Ids.{ids}

go_on-ids :
    (a : ActiveRoute) (r : Ending × Session) (rest : List ActiveRoute) (next : Database → Delivered)
    → r.1.runtime.route_id ≡ id_of a
    → ((db : Database) → ids (next db).2 ≡ ids rest)
    → ids (go_on a r rest next).2 ≡ id_of a ∷ ids rest
go_on-ids a (completed, s) rest next k h = cc (k, h s.db)
go_on-ids a (store_error x, s) rest next k h = cc k
go_on-ids a (bridge_error x, s) rest next k h = cc k

-- A loop over the listeners of a channel keeps their routes.
for_channel-ids :
    (key : Text) (step : ActiveRoute → Step)
    → ((a : ActiveRoute) (s : Session) → (step a s).1.runtime.route_id ≡ s.runtime.route_id)
    → (active : List ActiveRoute) (db : Database)
    → ids (for_channel key step active db).2 ≡ ids active
unfolding for_channel
for_channel-ids key step keeps [] db = refl
for_channel-ids key step keeps (a ∷ rest) db = elim (Bool-cases (on_channel key a)) [
  | inl e ↦
      let s : Session = record { db = db; runtime = a.runtime } in
      rw e (
        go_on-ids a (step a s) rest (for_channel key step rest) (keeps a s)
          (for_channel-ids key step keeps rest))
  | inr e ↦ rw e (ap (λ js. id_of a ∷ js) (for_channel-ids key step keeps rest db))
]

handler_error-runtime : (now : ℕ) (s : Session) → (handler_error now s).1.runtime ≡ s.runtime
unfolding handler_error upsert_route_listener_state add_route_event
handler_error-runtime now s = ground arith

error-ids :
    (key : Text) (now : ℕ) (m : Manager)
    → ids (record_telethon_handler_error key now m).1.active ≡ ids m.active
unfolding record_telethon_handler_error
error-ids key now m =
    for_channel-ids key (λ a. handler_error now)
      (λ a s. ap (λ r. r.route_id) (handler_error-runtime now s)) m.active m.db

module _ (pick : List Text → Option Text) (moment : ℕ → Moment) (now : ℕ) where
  deliver-ids :
      (key : Text) (message : TelegramInboundMessage) (m : Manager)
      → ids (deliver_inbound_message pick moment now key message m).1.active ≡ ids m.active
  unfolding deliver_inbound_message
  deliver-ids key message m =
      for_channel-ids key (processing pick moment now message)
        (λ a s.
          (process_message-Keeps a.settings pick message (moment (id_of a)) s.runtime.route_id s).1)
        m.active m.db

  failed-ids :
      (key : Text) (r : Ending × Manager) → ids (report_failure key now r).1.active ≡ ids r.1.active
  failed-ids key (completed, m) = refl
  failed-ids key (store_error e, m) = error-ids key now m
  failed-ids key (bridge_error e, m) = error-ids key now m

  -- About messages
  pub on_new_message-ids :
      (message : TelegramInboundMessage) (m : Manager)
      → ids (on_new_message pick moment now message m).1.active ≡ ids m.active
  unfolding on_new_message
  on_new_message-ids message m = by_key (canonical_channel_key message.channel_id)
    where
      by_key :
          (key : Option Text)
          → ids (deliver_keyed pick moment now key message m).1.active ≡ ids m.active
      by_key none = refl
      by_key (some key) = elim (Bool-cases (has_active_channel key m)) [
        | inl e ↦ rw e (failed-ids key _ ∙ deliver-ids key message m)
        | inr e ↦ rw e refl
      ]

-- A call of the manager, with the clock and with what Telegram and Telethon give it.
pub data ManagerCall : Type 0 where
  start_call : ℕ → Option Text → ℕ → ManagerCall
  stop_call : ℕ → ℕ → ManagerCall
  message_call : TelegramInboundMessage → (List Text → Option Text) → (ℕ → Moment) → ℕ → ManagerCall

abbrev pub call : ManagerConfig → ManagerCall → Manager → Manager
call config (start_call i hook now) m = (start_route config i hook now m).1
call config (stop_call i now) m = (stop_route i now m).1
call config (message_call message pick moment now) m = (on_new_message pick moment now message m).1

abbrev pub call_all : ManagerConfig → List ManagerCall → Manager → Manager
call_all config [] m = m
call_all config (c ∷ cs) m = call_all config cs (call config c m)
