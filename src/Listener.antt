-- ===== src/Listener.antt =====
-- integrations/telegram/route_listener_service.py: what the listener of a route does with a message
-- (`_process_message`), on the database and on the runtime of the route.
pub mod Steps
pub mod Guard
pub mod Channel
pub mod Start
pub mod Rows
pub mod Calm
pub mod Keeps
pub mod Manager
pub mod Delivery
pub mod Growth
pub mod Once
pub mod Consumed
mod Tests
use basket_recovery_ea.Base.{
  ℕ, true, false, Option, none, some, List, ◌∷◌, if◌then◌else◌, length, ltb,
}
use basket_recovery_ea.Base.Text.{Text, codes}
use basket_recovery_ea.Bridge.Action.{Reply, returned, raised}
use basket_recovery_ea.Bridge.Classify.{
  Classification, empty, non_ascii, seed, details, unrecognized, classify_telegram_text,
}
use basket_recovery_ea.Bridge.Fingerprint.{short_fingerprint}
use basket_recovery_ea.Bridge.Publish.{Publisher}
use basket_recovery_ea.Bridge.Matcher.{Settings}
use basket_recovery_ea.Bridge.Handler.{TelegramInboundMessage, is_seen, hash_of, handle}
use basket_recovery_ea.CandidateTest.{
  BlockReason, candidate_test_expired, is_armed_mode, evaluate_real_publish_permission, reason_code,
}
use basket_recovery_ea.Store.Arms.{
  RouteDetail, arm_of, get_route_detail, expire_candidate_test_arms, consume_candidate_test_publish,
}
use basket_recovery_ea.Store.Listeners.{
  upsert_route_listener_state, update_route_publish_status, add_route_event,
}
pub use basket_recovery_ea.Listener.Steps.{
  RouteRuntime, Session, Ending, Step, resume, ◌>>◌, skip, after, store, on_database, Moment, state,
  event, completed, store_error, bridge_error,
}

-- `_record_event`, at the status `PUBLISH_SKIPPED` that `_process_message` gives it.
pub record_event : Text → Text → ℕ → Step
record_event code summary now s =
    let status = codes "PUBLISH_SKIPPED" in
    (do
      store (upsert_route_listener_state s.runtime.route_id (state status summary none) now)
      store (add_route_event (event s.runtime code status summary now)))
      s

-- The state and the event of a message that is a seed or details.
pub detected : Text → Text → Text → Text → Text → ℕ → Step
detected event_type status summary text hash now s =
    (do
      store (upsert_route_listener_state s.runtime.route_id (state status summary none) now)
      store (
          add_route_event (record (event s.runtime event_type status text now) {
            fingerprint_short = some (short_fingerprint hash);
          })))
      s

-- `_record_publish_failure`
pub record_publish_failure : ℕ → Step
record_publish_failure now s =
    let status = codes "PUBLISH_FAILED" in
    (do
      store (
          upsert_route_listener_state s.runtime.route_id
            (state status (codes "Yayın başarısız oldu.") (some status)) now)
      on_database (update_route_publish_status s.runtime.route_id status now)
      store (
          add_route_event
            (event s.runtime status status (codes "Observer-only publish failed.") now)))
      s

abbrev pub publisher_of : Session → Publisher
publisher_of s = s.runtime.handler.matcher.outlet.publisher

abbrev pub count_published : Session → ℕ
count_published s = length (publisher_of s).published_fingerprints

abbrev pub remember : Text → Step
remember hash s = (
  completed,
  record s { runtime = record s.runtime { seen_raw_hashes = hash ∷ s.runtime.seen_raw_hashes } },
)

pub consume_if_armed : Option RouteDetail → ℕ → Step
consume_if_armed none later s = skip s
consume_if_armed (some d) later s =
    if is_armed_mode d.route.mode
    then store (consume_candidate_test_publish s.runtime.route_id later) s
    else skip s

abbrev nothing_or_short : Option Text → Option Text
nothing_or_short none = none
nothing_or_short (some fingerprint) = some (short_fingerprint fingerprint)

-- `pick` stands for `next(iter(...), "")` on a set: some member, if there is one.
module _ (σ : Settings) (pick : List Text → Option Text) where
  -- The use of the arm.
  pub consume : ℕ → Step
  unfolding consume_if_armed
  consume later s =
      if σ.setup.dry_run
      then skip s
      else (let (detail, db) = get_route_detail later s.runtime.route_id s.db in
          consume_if_armed detail later (record s { db = db }))

  -- The state and the event of a publication.
  pub report_published : ℕ → Step
  report_published later s =
      let status = codes "PUBLISH_READY" in
      (do
        store (
            upsert_route_listener_state s.runtime.route_id
              (record (state status (codes "Sinyal yalnız izleme modunda hazırlandı.") none) {
                last_publish_at = some later;
              })
              later)
        on_database (update_route_publish_status s.runtime.route_id status later)
        store (
            add_route_event
              (record (event s.runtime status status (codes "Observer-only publish plan completed.")
                later) {
                  fingerprint_short =
                      nothing_or_short (pick (publisher_of s).published_fingerprints);
                  seed_bytes = (publisher_of s).last_seed_bytes;
                  details_bytes = (publisher_of s).last_details_bytes;
                  signal_meta = (publisher_of s).last_signal_meta;
                })))
        s

  -- `_record_publish_success`
  unfoldable pub record_publish_success : ℕ → Step
  record_publish_success later = do consume later; report_published later

  -- What follows the handler's work on details.
  pub after_handling : Moment → ℕ → Reply (Unit {0}) → Step
  unfolding record_publish_failure record_publish_success record_event
  after_handling moment count (raised e) s = record_publish_failure moment.later s
  after_handling moment count (returned _) s =
      if ltb count (count_published s)
      then record_publish_success moment.later s
      else record_event (codes "PUBLISH_SKIPPED") (codes "Yayın atlandı (eşleşme veya tekrar).")
          moment.later s

  pub publish_details : TelegramInboundMessage → Moment → Step
  unfolding after_handling
  publish_details message moment s =
      let (reply, handler) = handle σ message moment.clock s.runtime.handler in
      after_handling moment (count_published s) reply
        (record s { runtime = record s.runtime { handler = handler } })

  pub expire_if : BlockReason → ℕ → Step
  expire_if candidate_test_expired now = on_database (expire_candidate_test_arms now)
  expire_if _ now = skip

  pub by_permission : Option BlockReason → TelegramInboundMessage → Moment → Step
  unfolding publish_details expire_if record_event
  by_permission none message moment = publish_details message moment
  by_permission (some reason) message moment = do
    expire_if reason moment.now
    record_event (reason_code reason) (codes "Gerçek candidate yayını engellendi.") moment.now

  pub by_route : Option RouteDetail → TelegramInboundMessage → Moment → Step
  unfolding by_permission
  by_route none message moment = publish_details message moment
  by_route (some d) message moment =
      by_permission (evaluate_real_publish_permission (arm_of d.route) true false moment.now)
        message moment

  -- The test of the arm, which only a real run makes.
  pub check_arm : TelegramInboundMessage → Moment → Step
  unfolding by_route
  check_arm message moment s =
      if σ.setup.dry_run
      then publish_details message moment s
      else (let (detail, db) = get_route_detail moment.now s.runtime.route_id s.db in
          by_route detail message moment (record s { db = db }))

  abbrev ending_of : Reply (Unit {0}) → Ending
  ending_of (returned _) = completed
  ending_of (raised e) = bridge_error e

  abbrev pub seed_detected : TelegramInboundMessage → Moment → Step
  seed_detected message moment =
      detected (codes "SEED_DETECTED") (codes "SEED_DETECTED")
        (codes "Sinyal algılandı, yalnız izleme modunda değerlendirilecek.")
        (codes "Seed signal detected for observer-only route.") (hash_of σ message) moment.now

  abbrev pub details_detected : TelegramInboundMessage → Moment → Step
  details_detected message moment =
      detected (codes "DETAILS_DETECTED") (codes "DETAILS_DETECTED")
        (codes "Detay sinyali algılandı.")
        (codes "Details signal detected for observer-only route.") (hash_of σ message) moment.now

  pub ingest_seed_message : TelegramInboundMessage → Moment → Step
  ingest_seed_message message moment s =
      let (reply, handler) = handle σ message moment.clock s.runtime.handler in
      (ending_of reply, record s { runtime = record s.runtime { handler = handler } })

  pub skipped : Text → Moment → Step
  unfolding record_event
  skipped code moment = record_event code (codes "Mesaj sinyal formatına uymuyor.") moment.now

  -- `_process_message` behind the test for a known text.
  pub process_class : Classification → TelegramInboundMessage → Moment → Step
  unfolding detected ingest_seed_message check_arm skipped
  process_class seed message moment = do
    remember (hash_of σ message)
    seed_detected message moment
    ingest_seed_message message moment
  process_class details message moment = do
    remember (hash_of σ message)
    details_detected message moment
    check_arm message moment
  process_class empty message moment = skipped (codes "SKIP_EMPTY") moment
  process_class non_ascii message moment = skipped (codes "SKIP_NON_ASCII") moment
  process_class unrecognized message moment = skipped (codes "SKIP_UNRECOGNIZED") moment

  -- `_process_message`
  unfoldable pub process_message : TelegramInboundMessage → Moment → Step
  unfolding record_event process_class
  process_message message moment s =
      if is_seen (hash_of σ message) s.runtime.seen_raw_hashes
      then record_event (codes "LISTENER_DEDUP") (codes "Yinelenen mesaj atlandı.") moment.now s
      else process_class (classify_telegram_text message.text) message moment s
