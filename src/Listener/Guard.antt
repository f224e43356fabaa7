-- ===== src/Listener/Guard.antt =====
-- A real run writes no file unless the arm of the route permits it.
use basket_recovery_ea.Base.{
  ℕ, ◌≡◌, refl, true, false, inl, inr, Option, some, List, arith, Bool-cases,
}
use basket_recovery_ea.Base.Int.{ℤ, show_int}
use basket_recovery_ea.Base.Text.{Text, codes}
use basket_recovery_ea.Bridge.Classify.{
  Classification, empty, non_ascii, seed, details, unrecognized, classify_telegram_text,
}
use basket_recovery_ea.Bridge.Matcher.{
  Settings, Clock, Matcher, ingest_telegram_seed, expire_pending_seed_if_needed, unregister_seed,
}
use basket_recovery_ea.Bridge.Handler.{TelegramInboundMessage, Handler, is_seen, hash_of, handle}
use basket_recovery_ea.CandidateTest.{BlockReason, evaluate_real_publish_permission, reason_code}
use basket_recovery_ea.Store.Tables.{Database}
use basket_recovery_ea.Store.Arms.{
  RouteDetail, arm_of, get_route_detail, get_route_start_context, expire_candidate_test_arms,
}
use basket_recovery_ea.Store.Listeners.{upsert_route_listener_state, add_route_event}
use basket_recovery_ea.Listener.{skipped, remember, seed_detected, details_detected}
use basket_recovery_ea.Listener.{
  completed, Session, Moment, process_message, process_class, check_arm, by_route, by_permission,
  expire_if, detected, record_event, ingest_seed_message,
}

-- Neither the directory nor the publisher changes.
abbrev pub Silent : Matcher → Matcher → Type 0
Silent m m' = (m'.outlet.world ≡ m.outlet.world) × (m'.outlet.publisher ≡ m.outlet.publisher)

module _ (σ : Settings) where
  seed-Silent :
      (text message_id channel_id : Text) (grouped_id : Option ℤ) (i : ℤ) (clock : Clock)
      (m : Matcher)
      → Silent m (ingest_telegram_seed σ text message_id channel_id grouped_id i clock m).1
  unfolding ingest_telegram_seed expire_pending_seed_if_needed unregister_seed
  seed-Silent text message_id channel_id grouped_id i clock m = ground arith

  pub handle_seed-Silent :
      (message : TelegramInboundMessage) (clock : Clock) (h : Handler)
      → classify_telegram_text message.text ≡ seed
      → Silent h.matcher (handle σ message clock h).1.matcher
  unfolding handle
  handle_seed-Silent message clock h e = ground (
    arith,
    seed-Silent message.text (show_int message.message_id) (show_int message.channel_id)
        message.grouped_id message.message_id clock h.matcher,
  )

-- An event and a state on the database leave the runtime alone.
pub record_event-runtime :
    (code summary : Text) (now : ℕ) (s : Session)
    → (record_event code summary now s).1.runtime ≡ s.runtime
unfolding record_event upsert_route_listener_state add_route_event
record_event-runtime code summary now s = ground arith

-- The rows that a route joins.
abbrev pub SameRows : Database → Database → Type 0
SameRows db db' =
    (db'.routes ≡ db.routes) × (db'.channels ≡ db.channels) × (db'.targets ≡ db.targets)

pub detected-SameRows :
    (event_type status summary text hash : Text) (now : ℕ) (s : Session)
    → let u = (detected event_type status summary text hash now s).1 in
      SameRows s.db u.db × (u.runtime ≡ s.runtime)
unfolding detected upsert_route_listener_state add_route_event
detected-SameRows event_type status summary text hash now s = ground arith

pub get_route_detail-SameRows :
    (now i : ℕ) (db db' : Database)
    → SameRows db db'
    → (get_route_detail now i db').0 ≡ (get_route_detail now i db).0
unfolding get_route_detail get_route_start_context expire_candidate_test_arms
get_route_detail-SameRows now i db db' h = ground (arith, h)

module _ (σ : Settings) (pick : List Text → Option Text) (message : TelegramInboundMessage)
    (moment : Moment) where
  expire_if-runtime :
      (reason : BlockReason) (now : ℕ) (s : Session)
      → ((expire_if σ pick reason now s).0 ≡ completed)
        × ((expire_if σ pick reason now s).1.runtime ≡ s.runtime)
  unfolding expire_if
  expire_if-runtime reason now s = ground arith

  pub denied-runtime :
      (reason : BlockReason) (s : Session)
      → (by_permission σ pick (some reason) message moment s).1.runtime ≡ s.runtime
  unfolding by_permission
  denied-runtime reason s =
      let u = (expire_if σ pick reason moment.now s).1 in
      ground (
        arith,
        expire_if-runtime reason moment.now s,
        record_event-runtime (reason_code reason) (codes "Gerçek candidate yayını engellendi.")
            moment.now u,
      )

  check_arm-runtime :
      (s : Session) (d : RouteDetail) (reason : BlockReason)
      → σ.setup.dry_run ≡ false
      → (get_route_detail moment.now s.runtime.route_id s.db).0 ≡ some d
      → evaluate_real_publish_permission (arm_of d.route) true false moment.now ≡ some reason
      → (check_arm σ pick message moment s).1.runtime ≡ s.runtime
  unfolding check_arm by_route
  check_arm-runtime s d reason real found denied =
      let db = (get_route_detail moment.now s.runtime.route_id s.db).1 in
      ground (arith, denied-runtime reason (record s { db = db }))

  pub skipped-Silent :
      (code : Text) (u : Session)
      → Silent u.runtime.handler.matcher (skipped σ pick code moment u).1.runtime.handler.matcher
  unfolding skipped
  skipped-Silent code u =
      ground
        (arith, record_event-runtime code (codes "Mesaj sinyal formatına uymuyor.") moment.now u)

  abbrev pub noted : Session → Session
  noted s = (remember (hash_of σ message) s).1

  pub seed_case-Silent :
      (s : Session)
      → classify_telegram_text message.text ≡ seed
      → Silent s.runtime.handler.matcher
          (process_class σ pick seed message moment s).1.runtime.handler.matcher
  unfolding process_class ingest_seed_message
  seed_case-Silent s e =
      let t = (seed_detected σ pick message moment (noted s)).1 in
      ground (
        arith,
        detected-SameRows _ _ _ _ (hash_of σ message) moment.now (noted s),
        handle_seed-Silent σ message moment.clock t.runtime.handler e,
      )

  details_case-Silent :
      (s : Session) (d : RouteDetail) (reason : BlockReason)
      → σ.setup.dry_run ≡ false
      → (get_route_detail moment.now s.runtime.route_id s.db).0 ≡ some d
      → evaluate_real_publish_permission (arm_of d.route) true false moment.now ≡ some reason
      → Silent s.runtime.handler.matcher
          (process_class σ pick details message moment s).1.runtime.handler.matcher
  unfolding process_class
  details_case-Silent s d reason real found denied =
      let t = (details_detected σ pick message moment (noted s)).1 in
      let h = rows s in
      let g = get_route_detail-SameRows moment.now s.runtime.route_id s.db t.db h.0 in
      let c = check_arm-runtime t d reason real (ground (arith, g, h, found)) denied in
      ground (arith, h.1, c)
    where
      rows :
          (s : Session)
          → let t = (details_detected σ pick message moment (noted s)).1 in
            SameRows s.db t.db × (t.runtime ≡ (noted s).runtime)
      rows s = detected-SameRows _ _ _ _ (hash_of σ message) moment.now (noted s)

  -- In a real run, when the joined row of the route is there and does not permit a publication at
  -- the time of a message, the processing of that message, of any class and however it ends,
  -- leaves the directory and the publisher as they were.
  pub blocked-Silent :
      (s : Session) (d : RouteDetail) (reason : BlockReason)
      → σ.setup.dry_run ≡ false
      → (get_route_detail moment.now s.runtime.route_id s.db).0 ≡ some d
      → evaluate_real_publish_permission (arm_of d.route) true false moment.now ≡ some reason
      → Silent s.runtime.handler.matcher
          (process_message σ pick message moment s).1.runtime.handler.matcher
  unfolding process_message process_class
  blocked-Silent s d reason real found denied =
      elim (Bool-cases (is_seen (hash_of σ message) s.runtime.seen_raw_hashes)) [
        | inl old ↦ ground (
          arith,
          record_event-runtime (codes "LISTENER_DEDUP") (codes "Yinelenen mesaj atlandı.")
              moment.now s,
        )
        | inr new ↦ rw new (by_case (classify_telegram_text message.text) refl)
      ]
    where
      by_case :
          (c : Classification)
          → classify_telegram_text message.text ≡ c
          → Silent s.runtime.handler.matcher
              (process_class σ pick c message moment s).1.runtime.handler.matcher
      by_case empty e = skipped-Silent (codes "SKIP_EMPTY") s
      by_case non_ascii e = skipped-Silent (codes "SKIP_NON_ASCII") s
      by_case seed e = seed_case-Silent s e
      by_case details e = details_case-Silent s d reason real found denied
      by_case unrecognized e = skipped-Silent (codes "SKIP_UNRECOGNIZED") s
