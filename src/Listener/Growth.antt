-- ===== src/Listener/Growth.antt =====
-- The processing of a message step by step: it records one publication at most.
use basket_recovery_ea.Base.{
  ℕ, ltb, ◌≤◌, ◌+◌, inl, inr, Option, none, some, List, arith, Bool-cases,
}
use basket_recovery_ea.Base.Text.{Text}
use basket_recovery_ea.Bridge.Action.{Reply, returned, raised}
use basket_recovery_ea.Bridge.Classify.{
  Classification, empty, non_ascii, seed, details, unrecognized, classify_telegram_text,
}
use basket_recovery_ea.Bridge.Matcher.{Settings}
use basket_recovery_ea.Bridge.Handler.{TelegramInboundMessage, handle, hash_of, is_seen}
use basket_recovery_ea.Bridge.Handler.Growth.{handle-growth}
use basket_recovery_ea.CandidateTest.{BlockReason, is_armed_mode, reason_code}
use basket_recovery_ea.Store.Tables.{Database, Stored, stored, refused}
use basket_recovery_ea.Store.Arms.{RouteDetail, consume_candidate_test_publish, get_route_detail}
use basket_recovery_ea.Store.Listeners.{
  upsert_route_listener_state, update_route_publish_status, add_route_event,
}
use basket_recovery_ea.Listener.{
  count_published, after, resume, Session, Moment, Ending, completed, store_error, bridge_error,
  Step, ◌>>◌, store, on_database, remember, record_event, detected, record_publish_failure,
  record_publish_success, consume, consume_if_armed, report_published, after_handling,
  publish_details, expire_if, by_permission, by_route, check_arm, ingest_seed_message, skipped,
  process_class, process_message, seed_detected, details_detected,
}

-- A step that records `k` publications at most, at every session.
abbrev pub Grows : ℕ → Step → Type 0
Grows k step = (s : Session) → count_published (step s).1 ≤ k + count_published s

Grows-resume :
    (k : ℕ) (s : Session) (r : Ending × Session) (next : Step)
    → count_published r.1 ≤ count_published s
    → Grows k next
    → count_published (resume r next).1 ≤ k + count_published s
Grows-resume k s (completed, t) next h g = omega (arith, h, g t)
Grows-resume k s (store_error x, t) next h g = omega (arith, h)
Grows-resume k s (bridge_error x, t) next h g = omega (arith, h)

Grows->> : (k : ℕ) (first next : Step) → Grows 0 first → Grows k next → Grows k (first >> next)
Grows->> k first next f g s = Grows-resume k s (first s) next (omega (arith, f s)) g

Grows-store : {A : Type 0} (op : Database → Stored A) → Grows 0 (store op)
Grows-store op s = elim (op s.db) as (λ r. count_published (after s r).1 ≤ 0 + count_published s) [
  | stored a db ↦ omega arith
  | refused e ↦ omega arith
]

-- The two transactions that report on a listener, and those that report on a publication.
state_event-Grows :
    {A B : Type 0} (f : Database → Stored A) (g : Database → Stored B)
    → Grows 0 (store f >> store g)
state_event-Grows f g = Grows->> 0 (store f) (store g) (Grows-store f) (Grows-store g)

status_event-Grows :
    {A B : Type 0} (f : Database → Stored A) (h : Database → Database) (g : Database → Stored B)
    → Grows 0 (store f >> (on_database h >> store g))
status_event-Grows f h g =
    Grows->> 0 (store f) (on_database h >> store g) (Grows-store f)
      (Grows->> 0 (on_database h) (store g) (λ s. omega arith) (Grows-store g))

record_event-Grows : (code summary : Text) (now : ℕ) → Grows 0 (record_event code summary now)
unfolding record_event
record_event-Grows code summary now s =
    state_event-Grows (upsert_route_listener_state _ _ now) (add_route_event _) s

detected-Grows :
    (event_type status summary text hash : Text) (now : ℕ)
    → Grows 0 (detected event_type status summary text hash now)
unfolding detected
detected-Grows event_type status summary text hash now s =
    state_event-Grows (upsert_route_listener_state _ _ now) (add_route_event _) s

failure-Grows : (now : ℕ) → Grows 0 (record_publish_failure now)
unfolding record_publish_failure
failure-Grows now s =
    status_event-Grows (upsert_route_listener_state _ _ now) (update_route_publish_status _ _ now)
      (add_route_event _) s

module _ (σ : Settings) (pick : List Text → Option Text) where
  consume_if_armed-Grows : (d : Option RouteDetail) (later : ℕ) → Grows 0 (consume_if_armed d later)
  unfolding consume_if_armed
  consume_if_armed-Grows none later s = omega arith
  consume_if_armed-Grows (some d) later s = elim (Bool-cases (is_armed_mode d.route.mode)) [
    | inl e ↦ rw e (Grows-store (consume_candidate_test_publish s.runtime.route_id later) s)
    | inr e ↦ rw e (omega arith)
  ]

  consume-Grows : (later : ℕ) → Grows 0 (consume σ pick later)
  unfolding consume
  consume-Grows later s = elim (Bool-cases σ.setup.dry_run) [
    | inl e ↦ simp e (omega arith)
    | inr e ↦
        let r = get_route_detail later s.runtime.route_id s.db in
        simp e (consume_if_armed-Grows r.0 later (record s { db = r.1 }))
  ]

  report-Grows : (later : ℕ) → Grows 0 (report_published σ pick later)
  unfolding report_published
  report-Grows later s =
      status_event-Grows (upsert_route_listener_state _ _ later)
        (update_route_publish_status _ _ later) (add_route_event _) s

  success-Grows : (later : ℕ) → Grows 0 (record_publish_success σ pick later)
  unfolding record_publish_success
  success-Grows later =
      Grows->> 0 (consume σ pick later) (report_published σ pick later) (consume-Grows later)
        (report-Grows later)

module _ (σ : Settings) (pick : List Text → Option Text) (message : TelegramInboundMessage)
    (moment : Moment) where
  handled-Grows :
      (count : ℕ) (r : Reply (Unit {0})) → Grows 0 (after_handling σ pick moment count r)
  unfolding after_handling
  handled-Grows count (raised e) s = failure-Grows moment.later s
  handled-Grows count (returned _) s = elim (Bool-cases (ltb count (count_published s))) [
    | inl e ↦ rw e (success-Grows σ pick moment.later s)
    | inr e ↦ rw e (record_event-Grows _ _ moment.later s)
  ]

  publish_details-Grows : Grows 1 (publish_details σ pick message moment)
  unfolding publish_details
  publish_details-Grows s =
      let h = handle σ message moment.clock s.runtime.handler in
      let t : Session = record s { runtime = record s.runtime { handler = h.1 } } in
      omega (
        arith,
        handled-Grows (count_published s) h.0 t,
        handle-growth σ message moment.clock s.runtime.handler,
      )

  expire_if-Grows : (reason : BlockReason) → Grows 0 (expire_if σ pick reason moment.now)
  unfolding expire_if
  expire_if-Grows reason s = ground arith

  by_permission-Grows : (o : Option BlockReason) → Grows 1 (by_permission σ pick o message moment)
  unfolding by_permission
  by_permission-Grows none s = publish_details-Grows s
  by_permission-Grows (some reason) s =
      Grows->> 1 (expire_if σ pick reason moment.now)
        (record_event (reason_code reason) _ moment.now) (expire_if-Grows reason)
        (λ t. omega (arith, record_event-Grows (reason_code reason) _ moment.now t)) s

  by_route-Grows : (d : Option RouteDetail) → Grows 1 (by_route σ pick d message moment)
  unfolding by_route
  by_route-Grows none s = publish_details-Grows s
  by_route-Grows (some d) s = by_permission-Grows _ s

  check_arm-Grows : Grows 1 (check_arm σ pick message moment)
  unfolding check_arm
  check_arm-Grows s = elim (Bool-cases σ.setup.dry_run) [
    | inl e ↦ simp e (publish_details-Grows s)
    | inr e ↦
        let r = get_route_detail moment.now s.runtime.route_id s.db in
        simp e (by_route-Grows r.0 (record s { db = r.1 }))
  ]

  seed_message-Grows : Grows 1 (ingest_seed_message σ pick message moment)
  unfolding ingest_seed_message
  seed_message-Grows s = omega (arith, handle-growth σ message moment.clock s.runtime.handler)

  skipped-Grows : (code : Text) → Grows 1 (skipped σ pick code moment)
  unfolding skipped
  skipped-Grows code s = omega (arith, record_event-Grows code _ moment.now s)

  process_class-Grows : (c : Classification) → Grows 1 (process_class σ pick c message moment)
  unfolding process_class
  process_class-Grows empty = skipped-Grows _
  process_class-Grows non_ascii = skipped-Grows _
  process_class-Grows unrecognized = skipped-Grows _
  process_class-Grows seed =
      Grows->> 1 (remember (hash_of σ message))
        (seed_detected σ pick message moment >> ingest_seed_message σ pick message moment)
        (λ s. omega arith)
        (Grows->> 1 (seed_detected σ pick message moment)
          (ingest_seed_message σ pick message moment) (detected-Grows _ _ _ _ _ moment.now)
          seed_message-Grows)
  process_class-Grows details =
      Grows->> 1 (remember (hash_of σ message))
        (details_detected σ pick message moment >> check_arm σ pick message moment)
        (λ s. omega arith)
        (Grows->> 1 (details_detected σ pick message moment) (check_arm σ pick message moment)
          (detected-Grows _ _ _ _ _ moment.now) check_arm-Grows)

  -- The processing of a message records one publication at most.
  pub process_message-Grows : Grows 1 (process_message σ pick message moment)
  unfolding process_message
  process_message-Grows s =
      elim (Bool-cases (is_seen (hash_of σ message) s.runtime.seen_raw_hashes)) [
        | inl e ↦ rw e (omega (arith, record_event-Grows _ _ moment.now s))
        | inr e ↦ rw e (process_class-Grows (classify_telegram_text message.text) s)
      ]
