-- ===== src/Listener/Consumed.antt =====
-- A publication uses up the arm of its route.
use basket_recovery_ea.Base.{
  ℕ, ◌≡◌, ◌<◌, refl, true, false, inl, inr, Option, some, List, arith, Bool-cases, Option-cases,
  ltb,
}
use basket_recovery_ea.Base.Text.{Text, codes}
use basket_recovery_ea.CandidateTest.{evaluate_real_publish_permission}
use basket_recovery_ea.Store.Arms.{
  arm_of, RouteDetail, has_id, consume_candidate_test_publish, expire_candidate_test_arms,
  get_route_detail, get_route_start_context,
}
use basket_recovery_ea.Store.Listeners.{
  upsert_route_listener_state, update_route_publish_status, status_row, add_route_event,
}
use basket_recovery_ea.Bridge.Matcher.{Settings}
use basket_recovery_ea.Bridge.Matcher.Tidy.{replied}
use basket_recovery_ea.Bridge.Classify.{
  Classification, empty, non_ascii, seed, details, unrecognized, classify_telegram_text,
}
use basket_recovery_ea.Bridge.Handler.{TelegramInboundMessage, handle, hash_of, is_seen}
use basket_recovery_ea.Bridge.Handler.Raise.{handle_details-raised}
use basket_recovery_ea.Listener.Guard.{
  record_event-runtime, detected-SameRows, denied-runtime, skipped-Silent, noted, seed_case-Silent,
}
use basket_recovery_ea.Listener.{
  publish_details, after_handling, record_publish_failure, count_published, process_message,
  process_class, check_arm, by_route, details_detected,
}
use basket_recovery_ea.Listener.{
  completed, Session, Moment, record_publish_success, consume, report_published, consume_if_armed,
}
use basket_recovery_ea.Listener.Rows.{
  is_armed, is_armed-found, is_armed-update, is_armed-consumed, found-route, expire-join,
  context-SameRows,
}

module _ (σ : Settings) (pick : List Text → Option Text) where
  consume-disarms :
      (later : ℕ) (s : Session) (d : RouteDetail)
      → σ.setup.dry_run ≡ false
      → (get_route_detail later s.runtime.route_id s.db).0 ≡ some d
      → let (ending, u) = consume σ pick later s in
        (ending ≡ completed)
        × (u.runtime ≡ s.runtime)
        × (is_armed s.runtime.route_id u.db.routes ≡ false)
  unfolding consume consume_if_armed consume_candidate_test_publish get_route_detail
  consume-disarms later s d real e =
      let i = s.runtime.route_id in
      let db = expire_candidate_test_arms later s.db in
      let f = found-route i db d e in
      ground (arith, f, is_armed-found i db.routes d.route f, is_armed-consumed i later db.routes)

  report-keeps :
      (later : ℕ) (s : Session)
      → is_armed s.runtime.route_id s.db.routes ≡ false
      → is_armed s.runtime.route_id (report_published σ pick later s).1.db.routes ≡ false
  unfolding report_published upsert_route_listener_state update_route_publish_status add_route_event
  report-keeps later s h = ground (
    arith,
    is_armed-update (has_id s.runtime.route_id) (status_row (codes "PUBLISH_READY") later)
        (λ r. refl) (λ r e. e) s.runtime.route_id s.db.routes h,
  )

module _ (σ : Settings) (pick : List Text → Option Text) (message : TelegramInboundMessage)
    (moment : Moment) where
  success-disarms :
      (s : Session) (d : RouteDetail)
      → σ.setup.dry_run ≡ false
      → get_route_start_context s.runtime.route_id s.db ≡ some d
      → is_armed s.runtime.route_id (record_publish_success σ pick moment.later s).1.db.routes
        ≡ false
  unfolding record_publish_success get_route_detail
  success-disarms s d real e =
      let j = expire-join s.runtime.route_id moment.later s.db d e in
      let c = consume-disarms σ pick moment.later s j.0 real j.1 in
      let u = (consume σ pick moment.later s).1 in
      ground (arith, c, report-keeps σ pick moment.later u)

  failure-runtime : (now : ℕ) (s : Session) → (record_publish_failure now s).1.runtime ≡ s.runtime
  unfolding record_publish_failure upsert_route_listener_state update_route_publish_status
      add_route_event
  failure-runtime now s = ground arith

  publish-disarms :
      (s : Session) (d : RouteDetail)
      → σ.setup.dry_run ≡ false
      → get_route_start_context s.runtime.route_id s.db ≡ some d
      → classify_telegram_text message.text ≡ details
      → let u = (publish_details σ pick message moment s).1 in
        count_published s < count_published u → is_armed s.runtime.route_id u.db.routes ≡ false
  unfolding publish_details after_handling
  publish-disarms s d real e c more =
      let h = handle σ message moment.clock s.runtime.handler in
      let t : Session = record s { runtime = record s.runtime { handler = h.1 } } in
      elim (replied h.0) [
        | inl (x, failed) ↦
            let k = handle_details-raised σ message moment.clock s.runtime.handler x c failed in
            let f = failure-runtime moment.later t in absurd (ground (arith, k, f))
        | inr (_, fine) ↦ elim (Bool-cases (ltb (count_published s) (count_published t))) [
          | inl grown ↦ ground (arith, success-disarms t d real e)
          | inr same ↦
              let f =
                record_event-runtime (codes "PUBLISH_SKIPPED")
                  (codes "Yayın atlandı (eşleşme veya tekrar).") moment.later t in
              absurd (ground (arith, f))
        ]
      ]

  check_arm-disarms :
      (s : Session) (d : RouteDetail)
      → σ.setup.dry_run ≡ false
      → get_route_start_context s.runtime.route_id s.db ≡ some d
      → classify_telegram_text message.text ≡ details
      → let u = (check_arm σ pick message moment s).1 in
        count_published s < count_published u → is_armed s.runtime.route_id u.db.routes ≡ false
  unfolding check_arm by_route get_route_detail
  check_arm-disarms s d real e c more =
      let i = s.runtime.route_id in
      let j = expire-join i moment.now s.db d e in
      let t : Session = record s { db = expire_candidate_test_arms moment.now s.db } in
      elim (Option-cases
        (evaluate_real_publish_permission (arm_of j.0.route) true false moment.now)) [
          | inl free ↦ ground (arith, j.1, publish-disarms t j.0 real j.1 c)
          | inr (reason, denied) ↦
              let k = denied-runtime σ pick message moment reason t in
              absurd (ground (arith, j.1, k))
        ]

  details-disarms :
      (s : Session) (d : RouteDetail)
      → σ.setup.dry_run ≡ false
      → get_route_start_context s.runtime.route_id s.db ≡ some d
      → classify_telegram_text message.text ≡ details
      → let u = (process_class σ pick details message moment s).1 in
        count_published s < count_published u → is_armed s.runtime.route_id u.db.routes ≡ false
  unfolding process_class
  details-disarms s d real e c more =
      let t = (details_detected σ pick message moment (noted σ pick message moment s)).1 in
      let h =
        detected-SameRows (codes "DETAILS_DETECTED") (codes "DETAILS_DETECTED")
          (codes "Detay sinyali algılandı.")
          (codes "Details signal detected for observer-only route.") (hash_of σ message) moment.now
          (noted σ pick message moment s) in
      let f = context-SameRows s.runtime.route_id s.db t.db h.0 in
      let k = check_arm-disarms t d real (ground (arith, f, h, e)) c in ground (arith, h.1, k)

  -- In a real run, when the route's joined row is there and the processing of a message, of any
  -- class and however it ends, records a publication, the route is not armed afterwards.
  pub published-disarms :
      (s : Session) (d : RouteDetail)
      → σ.setup.dry_run ≡ false
      → get_route_start_context s.runtime.route_id s.db ≡ some d
      → let u = (process_message σ pick message moment s).1 in
        count_published s < count_published u → is_armed s.runtime.route_id u.db.routes ≡ false
  unfolding process_message
  published-disarms s d real e more =
      elim (Bool-cases (is_seen (hash_of σ message) s.runtime.seen_raw_hashes)) [
        | inl old ↦
            let f =
              record_event-runtime (codes "LISTENER_DEDUP") (codes "Yinelenen mesaj atlandı.")
                moment.now s in
            absurd (ground (arith, f))
        | inr new ↦
            let r =
              by_case (classify_telegram_text message.text) refl (ground (arith, new, more)) in
            ground (arith, new, r)
      ]
    where
      by_case :
          (k : Classification)
          → classify_telegram_text message.text ≡ k
          → count_published s < count_published (process_class σ pick k message moment s).1
          → is_armed s.runtime.route_id (process_class σ pick k message moment s).1.db.routes
            ≡ false
      by_case empty c m =
          absurd (ground (arith, skipped-Silent σ pick message moment (codes "SKIP_EMPTY") s, m))
      by_case non_ascii c m =
          absurd
            (ground (arith, skipped-Silent σ pick message moment (codes "SKIP_NON_ASCII") s, m))
      by_case seed c m = absurd (ground (arith, seed_case-Silent σ pick message moment s c, m))
      by_case details c m = details-disarms s d real e c m
      by_case unrecognized c m =
          absurd
            (ground (arith, skipped-Silent σ pick message moment (codes "SKIP_UNRECOGNIZED") s, m))
