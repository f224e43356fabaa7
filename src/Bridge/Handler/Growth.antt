-- ===== src/Bridge/Handler/Growth.antt =====
-- One message brings one publication at most: the handler.
use basket_recovery_ea.Base.{ℕ, suc, ◌≤◌, inl, inr, length, arith, Bool-cases}
use basket_recovery_ea.Base.Int.{show_int}
use basket_recovery_ea.Bridge.Classify.{
  Classification, empty, non_ascii, seed, details, unrecognized, classify_telegram_text,
}
use basket_recovery_ea.Bridge.Publish.Effect.{known}
use basket_recovery_ea.Bridge.Matcher.{Settings, Clock}
use basket_recovery_ea.Bridge.Matcher.Growth.{details-growth, seed-growth}
use basket_recovery_ea.Bridge.Handler.{
  TelegramInboundMessage, Handler, message_key, is_seen, hash_of, dispatch, by_class, accept,
  handle,
}

abbrev pub count_known : Handler → ℕ
count_known h = length (known h.matcher.outlet)

module _ (σ : Settings) (m : TelegramInboundMessage) (clock : Clock) where
  dispatch-growth :
      (c : Classification) (h : Handler)
      → count_known (dispatch σ c m clock h).1 ≤ suc (count_known h)
  unfolding dispatch
  dispatch-growth seed h = omega (
    arith,
    seed-growth σ m.text (show_int m.message_id) (show_int m.channel_id) m.grouped_id m.message_id
        clock h.matcher,
  )
  dispatch-growth details h = omega (
    arith,
    details-growth σ m.text (show_int m.message_id) m.grouped_id m.reply_to_msg_id clock h.matcher,
  )
  dispatch-growth empty h = omega arith
  dispatch-growth non_ascii h = omega arith
  dispatch-growth unrecognized h = omega arith

  accept-growth :
      (c : Classification) (h : Handler)
      → count_known (accept σ c m clock h).1 ≤ suc (count_known h)
  unfolding accept
  accept-growth c h = elim (Bool-cases (is_seen (hash_of σ m) h.seen_raw_hashes)) [
    | inl old ↦ rw old (omega arith)
    | inr new ↦ rw new (dispatch-growth c _)
  ]

  by_class-growth :
      (c : Classification) (h : Handler)
      → count_known (by_class σ c m clock h).1 ≤ suc (count_known h)
  unfolding by_class
  by_class-growth empty h = omega arith
  by_class-growth non_ascii h = omega arith
  by_class-growth seed h = accept-growth seed h
  by_class-growth details h = accept-growth details h
  by_class-growth unrecognized h = accept-growth unrecognized h

  pub handle-growth : (h : Handler) → count_known (handle σ m clock h).1 ≤ suc (count_known h)
  unfolding handle
  handle-growth h = elim (Bool-cases (is_seen (message_key m) h.seen_message_keys)) [
    | inl old ↦ rw old (omega arith)
    | inr new ↦ rw new (by_class-growth (classify_telegram_text m.text) h)
  ]
