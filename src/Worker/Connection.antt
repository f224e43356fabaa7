-- ===== src/Worker/Connection.antt =====
-- listener_worker_runtime.py: the watch over the connection, and the shutdown.
use basket_recovery_ea.Base.{
  ℕ, suc, ◌*◌, Bool, true, false, Option, none, some, List, [], ◌∷◌, if◌then◌else◌, leb, ◌==◌,
  length, not, ◌&&◌, ◌||◌, map,
}
use basket_recovery_ea.Base.Text.{Text, codes}
use basket_recovery_ea.Listener.Manager.{
  ManagerConfig, Manager, Response, raised_store, raised_os, stop_route, id_of,
}
use basket_recovery_ea.Worker.{
  WorkerStatus, Worker, reconnect_base_delay_seconds, reconnect_max_delay_seconds, publish_state,
  without_error, with_error, connected, reconnecting, stopping, stopped,
}

abbrev pub is_reconnecting : WorkerStatus → Bool
is_reconnecting reconnecting = true
is_reconnecting _ = false

abbrev minimum : ℕ → ℕ → ℕ
minimum a b = if leb a b then a else b

-- Behind the new attempt: what `_ensure_telethon_hook` returned.
abbrev pub after_attempt : Option Text → ℕ → Worker → Worker
after_attempt none now w = record (publish_state connected without_error now w) {
  reconnect_delay = reconnect_base_delay_seconds;
}
after_attempt (some code) now w =
    publish_state reconnecting
      (with_error (codes "Telegram bağlantısı kurulamadı; yeniden denenecek.")) now
      (record w { reconnect_delay = minimum (w.reconnect_delay * 2) reconnect_max_delay_seconds })

-- The bridge is shut down, if there is one, and started again.
abbrev pub reconnect : Option Text → ℕ → Worker → Worker
reconnect hook now w =
    after_attempt hook now
      (record (publish_state reconnecting
        (λ s.
          with_error (codes "Telegram bağlantısı yeniden kuruluyor.")
            (record s { reconnect_count = suc s.reconnect_count }))
        now w) { manager = record w.manager { has_bridge = true } })

abbrev pub still_connected : ℕ → Worker → Worker
still_connected now w =
    if is_reconnecting w.worker_state.state
    then record (publish_state connected without_error now w) {
      reconnect_delay = reconnect_base_delay_seconds;
    }
    else w

-- `_monitor_telethon_connection`; the flag says whether the bridge, if there is one, is connected.
unfoldable pub monitor_telethon_connection :
    ManagerConfig → Bool → Option Text → ℕ → Worker → Worker
monitor_telethon_connection config is_connected hook now w =
    if not config.telethon_enabled || length w.manager.active == 0
    then w
    else if w.manager.has_bridge && is_connected
    then still_connected now w
    else reconnect hook now w

abbrev pub go_on_stopping : Response × Manager → (Manager → Bool × Manager) → Bool × Manager
go_on_stopping (raised_store e, m) next = (false, m)
go_on_stopping (raised_os, m) next = (false, m)
go_on_stopping (r, m) next = next m

-- The loop of `_shutdown`: an exception of a stop goes through.
abbrev pub stop_each : ℕ → List ℕ → Manager → Bool × Manager
stop_each now [] m = (true, m)
stop_each now (i ∷ rest) m = go_on_stopping (stop_route i now m) (stop_each now rest)

abbrev pub shut_down_after : ℕ → Worker → Bool × Manager → Bool × Worker
shut_down_after now w (false, m) = (false, record w { manager = m })
shut_down_after now w (true, m) = (
  true,
  publish_state stopped
      (λ s. record s { pid = none; active_route_count = 0; active_route_ids = [] }) now
      (record w { manager = record m { has_bridge = false } }),
)

-- `_shutdown`, and whether it returns.
unfoldable pub shutdown : ℕ → Worker → Bool × Worker
unfolding stop_route
shutdown now w =
    let w' = publish_state stopping (λ s. s) now w in
    shut_down_after now w' (stop_each now (map id_of w.manager.active) w'.manager)
