-- ===== src/Bridge/Handler.antt =====
-- `TelegramInboundMessage` and `TelegramMessageHandler` of fasttrack_file_bridge.py.
pub mod Once
pub mod Run
pub mod Raise
pub mod Growth
use basket_recovery_ea.Base.{Bool, Option, List, [], ◌∷◌, ◌++◌, if◌then◌else◌, any}
use basket_recovery_ea.Base.Int.{ℤ, show_int}
use basket_recovery_ea.Base.Text.{Text, text_eq}
use basket_recovery_ea.Bridge.Action.{returned, Action, modify}
use basket_recovery_ea.Bridge.Classify.{
  Classification, empty, non_ascii, seed, details, classify_telegram_text,
}
use basket_recovery_ea.Bridge.Fingerprint.{raw_message_hash}
use basket_recovery_ea.Bridge.Publish.{
  LogEntry, telegram_dedup, empty_message, non_ascii_message, unrecognized_message,
}
use basket_recovery_ea.Bridge.Matcher.{
  Matcher, Settings, Clock, logged, ingest_telegram_seed, ingest_telegram_details,
}

pub record TelegramInboundMessage : Type 0 where
  pub text : Text
  pub message_id : ℤ
  pub channel_id : ℤ
  pub grouped_id : Option ℤ
  pub reply_to_msg_id : Option ℤ

-- `TelegramMessageHandler`; the two sets are lists, latest first.
pub record Handler : Type 0 where
  pub matcher : Matcher
  pub seen_message_keys : List Text
  pub seen_raw_hashes : List Text

-- `f"{message.channel_id}:{message.message_id}"`
unfoldable pub message_key : TelegramInboundMessage → Text
message_key message = show_int message.channel_id ++ b':' ∷ show_int message.message_id

unfoldable pub is_seen : Text → List Text → Bool
is_seen key keys = any (text_eq key) keys

abbrev pub noted : LogEntry → Handler → Handler
noted entry h = record h { matcher = logged entry h.matcher }

abbrev on_matcher : Action Matcher (Unit {0}) → Action Handler (Unit {0})
on_matcher a h = let (r, m) = a h.matcher in (r, record h { matcher = m })

module _ (σ : Settings) where
  abbrev pub hash_of : TelegramInboundMessage → Text
  hash_of message = raw_message_hash σ.env.sha256 message.text

  -- What is done with a new message of each class.
  pub dispatch : Classification → TelegramInboundMessage → Clock → Action Handler (Unit {0})
  dispatch seed message clock = on_matcher (
      ingest_telegram_seed σ message.text (show_int message.message_id)
        (show_int message.channel_id) message.grouped_id message.message_id clock)
  dispatch details message clock = on_matcher (
      ingest_telegram_details σ message.text (show_int message.message_id) message.grouped_id
        message.reply_to_msg_id clock)
  dispatch _ message clock = modify (noted (unrecognized_message (show_int message.message_id)))

  abbrev remember : TelegramInboundMessage → Handler → Handler
  remember message h = record h {
    seen_message_keys = message_key message ∷ h.seen_message_keys;
    seen_raw_hashes = hash_of message ∷ h.seen_raw_hashes;
  }

  -- `handle` behind the first two tests of the class.
  pub accept : Classification → TelegramInboundMessage → Clock → Action Handler (Unit {0})
  unfolding dispatch
  accept c message clock h =
      if is_seen (hash_of message) h.seen_raw_hashes
      then (returned tt, noted (telegram_dedup (show_int message.message_id)) h)
      else dispatch c message clock (remember message h)

  pub by_class : Classification → TelegramInboundMessage → Clock → Action Handler (Unit {0})
  unfolding accept
  by_class empty message clock = modify (noted (empty_message (show_int message.message_id)))
  by_class non_ascii message clock =
      modify (noted (non_ascii_message (show_int message.message_id)))
  by_class c message clock = accept c message clock

  -- `TelegramMessageHandler.handle`
  unfoldable pub handle : TelegramInboundMessage → Clock → Action Handler (Unit {0})
  unfolding by_class
  handle message clock h =
      if is_seen (message_key message) h.seen_message_keys
      then (returned tt, noted (telegram_dedup (show_int message.message_id)) h)
      else by_class (classify_telegram_text message.text) message clock h

  -- A stream of messages; what a handler raises does not end the stream.
  unfoldable pub handle_all : List (TelegramInboundMessage × Clock) → Handler → Handler
  handle_all [] h = h
  handle_all ((message, clock) ∷ rest) h = handle_all rest (handle message clock h).1
