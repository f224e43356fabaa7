-- ===== src/Bridge/Handler/Raise.antt =====
-- A handler that raises has published nothing.
use basket_recovery_ea.Base.{◌≡◌, arith}
use basket_recovery_ea.Base.Int.{show_int}
use basket_recovery_ea.Bridge.Errors.{Error}
use basket_recovery_ea.Bridge.Action.{raised}
use basket_recovery_ea.Bridge.Classify.{details, classify_telegram_text}
use basket_recovery_ea.Bridge.Publish.Effect.{known}
use basket_recovery_ea.Bridge.Matcher.{Settings, Clock}
use basket_recovery_ea.Bridge.Handler.{TelegramInboundMessage, Handler, handle}
use basket_recovery_ea.Bridge.Matcher.Raise.{details-raised}

module _ (σ : Settings) where
  -- A details message whose handling raises leaves the recorded fingerprints as they were.
  pub handle_details-raised :
      (message : TelegramInboundMessage) (clock : Clock) (h : Handler) (e : Error)
      → classify_telegram_text message.text ≡ details
      → (handle σ message clock h).0 ≡ raised e
      → known (handle σ message clock h).1.matcher.outlet ≡ known h.matcher.outlet
  unfolding handle
  handle_details-raised message clock h e c r = ground (
    arith,
    details-raised σ message.text (show_int message.message_id) message.grouped_id
        message.reply_to_msg_id clock h.matcher e,
  )
