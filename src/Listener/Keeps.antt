-- ===== src/Listener/Keeps.antt =====
-- The processing of a message step by step: no step arms a route or takes its row away.
use basket_recovery_ea.Base.{
  ℕ, ltb, ◌≡◌, refl, inl, inr, Option, none, some, List, arith, Bool-cases, ◌∙◌,
}
use basket_recovery_ea.Base.Text.{Text}
use basket_recovery_ea.Bridge.Action.{Reply, returned, raised}
use basket_recovery_ea.Bridge.Classify.{
  Classification, empty, non_ascii, seed, details, unrecognized, classify_telegram_text,
}
use basket_recovery_ea.Bridge.Matcher.{Settings}
use basket_recovery_ea.Bridge.Handler.{TelegramInboundMessage, handle, hash_of, is_seen}
use basket_recovery_ea.CandidateTest.{BlockReason, is_armed_mode, reason_code}
use basket_recovery_ea.Store.Tables.{Database, RouteEvent, Stored, stored, refused}
use basket_recovery_ea.Store.Arms.{
  RouteDetail, expire_candidate_test_arms, consume_candidate_test_publish, get_route_detail,
  get_route_start_context,
}
use basket_recovery_ea.Store.Listeners.{
  StateChange, upsert_route_listener_state, update_route_publish_status, add_route_event,
}
use basket_recovery_ea.Listener.{
  count_published, after, resume, Session, Moment, Ending, completed, store_error, bridge_error,
  Step, ◌>>◌, store, on_database, skip, remember, record_event, detected, record_publish_failure,
  record_publish_success, consume, consume_if_armed, report_published, after_handling,
  publish_details, expire_if, by_permission, by_route, check_arm, ingest_seed_message, skipped,
  process_class, process_message, seed_detected, details_detected,
}
use basket_recovery_ea.Listener.Calm.{
  Calm, Calm-refl, Calm-trans, after_op, expire-Calm, status-Calm, consume-Calm, state-Calm,
  event-Calm,
}

-- A step that arms nothing, at every session.
abbrev pub Kept : ℕ → Session → Session → Type 0
Kept i s t = Calm i s.db t.db × (t.runtime.route_id ≡ s.runtime.route_id)

abbrev pub Keeps : ℕ → Step → Type 0
Keeps i step = (s : Session) → Kept i s (step s).1

Kept-resume :
    (i : ℕ) (s : Session) (r : Ending × Session) (next : Step)
    → Kept i s r.1
    → Keeps i next
    → Kept i s (resume r next).1
Kept-resume i s (completed, t) next k g =
    (Calm-trans i s.db t.db (next t).1.db k.0 (g t).0, (g t).1 ∙ k.1)
Kept-resume i s (store_error x, t) next k g = k
Kept-resume i s (bridge_error x, t) next k g = k

Keeps->> : (i : ℕ) (first next : Step) → Keeps i first → Keeps i next → Keeps i (first >> next)
Keeps->> i first next f g s = Kept-resume i s (first s) next (f s) g

Keeps-store :
    {A : Type 0} (i : ℕ) (op : Database → Stored A)
    → ((db : Database) → Calm i db (after_op db (op db)))
    → Keeps i (store op)
Keeps-store i op calm s =
    elim (op s.db)
        as (λ r.
          Calm i s.db (after_op s.db r)
          → Calm i s.db (after s r).1.db × ((after s r).1.runtime.route_id ≡ s.runtime.route_id)) [
            | stored a db ↦ λ c. (c, refl)
            | refused e ↦ λ c. (c, refl)
          ]
      (calm s.db)

Keeps-on_database :
    (i : ℕ) (f : Database → Database)
    → ((db : Database) → Calm i db (f db))
    → Keeps i (on_database f)
Keeps-on_database i f calm s = (calm s.db, refl)

Keeps-skip : (i : ℕ) → Keeps i skip
Keeps-skip i s = (Calm-refl i s.db, refl)

-- The two transactions that report on a listener, and those that report on a publication.
state_event-Keeps :
    (i j now : ℕ) (c : StateChange) (e : RouteEvent)
    → Keeps i (store (upsert_route_listener_state j c now) >> store (add_route_event e))
state_event-Keeps i j now c e =
    Keeps->> i (store (upsert_route_listener_state j c now)) (store (add_route_event e))
      (Keeps-store i (upsert_route_listener_state j c now) (state-Calm i j now c))
      (Keeps-store i (add_route_event e) (event-Calm i e))

status_event-Keeps :
    (i j now : ℕ) (c : StateChange) (status : Text) (e : RouteEvent)
    → Keeps i (
        store (upsert_route_listener_state j c now)
        >> (on_database (update_route_publish_status j status now) >> store (add_route_event e)))
status_event-Keeps i j now c status e =
    Keeps->> i (store (upsert_route_listener_state j c now))
      (on_database (update_route_publish_status j status now) >> store (add_route_event e))
      (Keeps-store i (upsert_route_listener_state j c now) (state-Calm i j now c))
      (Keeps->> i (on_database (update_route_publish_status j status now))
        (store (add_route_event e))
        (Keeps-on_database i (update_route_publish_status j status now)
          (status-Calm i j now status))
        (Keeps-store i (add_route_event e) (event-Calm i e)))

record_event-Keeps :
    (i : ℕ) (code summary : Text) (now : ℕ) → Keeps i (record_event code summary now)
unfolding record_event
record_event-Keeps i code summary now s = state_event-Keeps i s.runtime.route_id now _ _ s

detected-Keeps :
    (i : ℕ) (event_type status summary text hash : Text) (now : ℕ)
    → Keeps i (detected event_type status summary text hash now)
unfolding detected
detected-Keeps i event_type status summary text hash now s =
    state_event-Keeps i s.runtime.route_id now _ _ s

failure-Keeps : (i now : ℕ) → Keeps i (record_publish_failure now)
unfolding record_publish_failure
failure-Keeps i now s = status_event-Keeps i s.runtime.route_id now _ _ _ s

module _ (σ : Settings) (pick : List Text → Option Text) where
  consume_if_armed-Keeps :
      (i : ℕ) (d : Option RouteDetail) (later : ℕ) → Keeps i (consume_if_armed d later)
  unfolding consume_if_armed
  consume_if_armed-Keeps i none later s = Keeps-skip i s
  consume_if_armed-Keeps i (some d) later s = elim (Bool-cases (is_armed_mode d.route.mode)) [
    | inl e ↦ rw e (
        Keeps-store i (consume_candidate_test_publish s.runtime.route_id later)
          (consume-Calm i s.runtime.route_id later) s)
    | inr e ↦ rw e (Keeps-skip i s)
  ]

  consume-Keeps : (i later : ℕ) → Keeps i (consume σ pick later)
  unfolding consume get_route_detail
  consume-Keeps i later s = elim (Bool-cases σ.setup.dry_run) [
    | inl e ↦ simp e (Keeps-skip i s)
    | inr e ↦
        let t : Session = record s { db = expire_candidate_test_arms later s.db } in
        let k =
          consume_if_armed-Keeps i (get_route_start_context s.runtime.route_id t.db) later t in
        simp e (Calm-trans i s.db t.db _ (expire-Calm i later s.db) k.0, k.1)
  ]

  report-Keeps : (i later : ℕ) → Keeps i (report_published σ pick later)
  unfolding report_published
  report-Keeps i later s = status_event-Keeps i s.runtime.route_id later _ _ _ s

  success-Keeps : (i later : ℕ) → Keeps i (record_publish_success σ pick later)
  unfolding record_publish_success
  success-Keeps i later =
      Keeps->> i (consume σ pick later) (report_published σ pick later) (consume-Keeps i later)
        (report-Keeps i later)

module _ (σ : Settings) (pick : List Text → Option Text) (message : TelegramInboundMessage)
    (moment : Moment) where
  handled-Keeps :
      (i count : ℕ) (r : Reply (Unit {0})) → Keeps i (after_handling σ pick moment count r)
  unfolding after_handling
  handled-Keeps i count (raised e) s = failure-Keeps i moment.later s
  handled-Keeps i count (returned _) s = elim (Bool-cases (ltb count (count_published s))) [
    | inl e ↦ rw e (success-Keeps σ pick i moment.later s)
    | inr e ↦ rw e (record_event-Keeps i _ _ moment.later s)
  ]

  publish_details-Keeps : (i : ℕ) → Keeps i (publish_details σ pick message moment)
  unfolding publish_details
  publish_details-Keeps i s =
      let h = handle σ message moment.clock s.runtime.handler in
      let t : Session = record s { runtime = record s.runtime { handler = h.1 } } in
      let k = handled-Keeps i (count_published s) h.0 t in (k.0, k.1)

  expire_if-Keeps : (i : ℕ) (reason : BlockReason) → Keeps i (expire_if σ pick reason moment.now)
  unfolding expire_if
  expire_if-Keeps i reason s = ground (arith, expire-Calm i moment.now s.db, Calm-refl i s.db)

  by_permission-Keeps :
      (i : ℕ) (o : Option BlockReason) → Keeps i (by_permission σ pick o message moment)
  unfolding by_permission
  by_permission-Keeps i none s = publish_details-Keeps i s
  by_permission-Keeps i (some reason) s =
      Keeps->> i (expire_if σ pick reason moment.now)
        (record_event (reason_code reason) _ moment.now) (expire_if-Keeps i reason)
        (record_event-Keeps i (reason_code reason) _ moment.now) s

  by_route-Keeps : (i : ℕ) (d : Option RouteDetail) → Keeps i (by_route σ pick d message moment)
  unfolding by_route
  by_route-Keeps i none s = publish_details-Keeps i s
  by_route-Keeps i (some d) s = by_permission-Keeps i _ s

  check_arm-Keeps : (i : ℕ) → Keeps i (check_arm σ pick message moment)
  unfolding check_arm get_route_detail
  check_arm-Keeps i s = elim (Bool-cases σ.setup.dry_run) [
    | inl e ↦ simp e (publish_details-Keeps i s)
    | inr e ↦
        let t : Session = record s { db = expire_candidate_test_arms moment.now s.db } in
        let k = by_route-Keeps i (get_route_start_context s.runtime.route_id t.db) t in
        simp e (Calm-trans i s.db t.db _ (expire-Calm i moment.now s.db) k.0, k.1)
  ]

  seed_message-Keeps : (i : ℕ) → Keeps i (ingest_seed_message σ pick message moment)
  unfolding ingest_seed_message
  seed_message-Keeps i s = (Calm-refl i s.db, refl)

  remember-Keeps : (i : ℕ) → Keeps i (remember (hash_of σ message))
  remember-Keeps i s = (Calm-refl i s.db, refl)

  process_class-Keeps :
      (i : ℕ) (c : Classification) → Keeps i (process_class σ pick c message moment)
  unfolding process_class skipped
  process_class-Keeps i empty = record_event-Keeps i _ _ moment.now
  process_class-Keeps i non_ascii = record_event-Keeps i _ _ moment.now
  process_class-Keeps i unrecognized = record_event-Keeps i _ _ moment.now
  process_class-Keeps i seed =
      Keeps->> i (remember (hash_of σ message))
        (seed_detected σ pick message moment >> ingest_seed_message σ pick message moment)
        (remember-Keeps i)
        (Keeps->> i (seed_detected σ pick message moment)
          (ingest_seed_message σ pick message moment) (detected-Keeps i _ _ _ _ _ moment.now)
          (seed_message-Keeps i))
  process_class-Keeps i details =
      Keeps->> i (remember (hash_of σ message))
        (details_detected σ pick message moment >> check_arm σ pick message moment)
        (remember-Keeps i)
        (Keeps->> i (details_detected σ pick message moment) (check_arm σ pick message moment)
          (detected-Keeps i _ _ _ _ _ moment.now) (check_arm-Keeps i))

  -- The processing of a message arms no route and takes no route's row away.
  pub process_message-Keeps : (i : ℕ) → Keeps i (process_message σ pick message moment)
  unfolding process_message
  process_message-Keeps i s =
      elim (Bool-cases (is_seen (hash_of σ message) s.runtime.seen_raw_hashes)) [
        | inl e ↦ rw e (record_event-Keeps i _ _ moment.now s)
        | inr e ↦ rw e (process_class-Keeps i (classify_telegram_text message.text) s)
      ]
