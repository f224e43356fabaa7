-- ===== src/Listener/Once.antt =====
-- A listener that processes any number of messages publishes at most once for an arm.
use basket_recovery_ea.Base.{
  ℕ, suc, ◌≡◌, ◌≤◌, refl, true, false, inl, inr, Option, some, is_some, List, [], ◌∷◌, arith,
  Option-cases, Bool-cases, ltb, sym, ◌∙◌, ap, length,
}
use basket_recovery_ea.Base.Text.{Text}
use basket_recovery_ea.Bridge.Matcher.{Settings}
use basket_recovery_ea.Bridge.Handler.{TelegramInboundMessage}
use basket_recovery_ea.CandidateTest.{
  evaluate_real_publish_permission, is_armed_mode, BlockReason, Arm, RouteMode, observer_only,
  armed, consumed, expired, blocked, observer_only_no_real_publish, candidate_test_not_armed,
}
use basket_recovery_ea.Store.Arms.{
  arm_of, get_route_detail, get_route_start_context, expire_candidate_test_arms,
}
use basket_recovery_ea.Listener.{Session, Moment, count_published, process_message}
use basket_recovery_ea.Listener.Guard.{blocked-Silent}
use basket_recovery_ea.Listener.Rows.{is_armed, is_armed-found, found-route}
use basket_recovery_ea.Listener.Calm.{expire-Calm}
use basket_recovery_ea.Listener.Keeps.{process_message-Keeps}
use basket_recovery_ea.Listener.Growth.{process_message-Grows}
use basket_recovery_ea.Listener.Consumed.{published-disarms}

unarmed-blocked :
    (arm : Arm) (now : ℕ)
    → is_armed_mode arm.mode ≡ false
    → (reason : BlockReason) × (evaluate_real_publish_permission arm true false now ≡ some reason)
unfolding evaluate_real_publish_permission
unarmed-blocked arm now h = by_mode arm.mode refl
  where
    by_mode :
        (mode : RouteMode)
        → arm.mode ≡ mode
        → (reason : BlockReason) × (evaluate_real_publish_permission arm true false now
            ≡ some reason)
    by_mode observer_only e = (observer_only_no_real_publish, ground (arith, e))
    by_mode armed e = absurd (ground (arith, e, h))
    by_mode consumed e = (candidate_test_not_armed, ground (arith, e))
    by_mode expired e = (candidate_test_not_armed, ground (arith, e))
    by_mode blocked e = (candidate_test_not_armed, ground (arith, e))

module _ (σ : Settings) (pick : List Text → Option Text) where
  -- The messages of a channel, one after the other: an exception ends its own message only.
  unfoldable pub process_all : List (TelegramInboundMessage × Moment) → Session → Session
  process_all [] s = s
  process_all ((message, moment) ∷ rest) s =
      process_all rest (process_message σ pick message moment s).1

  unarmed-same :
      (message : TelegramInboundMessage) (moment : Moment) (s : Session)
      → σ.setup.dry_run ≡ false
      → is_some (get_route_start_context s.runtime.route_id s.db) ≡ true
      → is_armed s.runtime.route_id s.db.routes ≡ false
      → count_published (process_message σ pick message moment s).1 ≡ count_published s
  unfolding get_route_detail
  unarmed-same message moment s real joined unarmed =
      let i = s.runtime.route_id in
      let db = expire_candidate_test_arms moment.now s.db in
      let calm = expire-Calm i moment.now s.db in
      elim (Option-cases (get_route_start_context i db)) [
        | inl e ↦ absurd (ground (arith, calm.joined joined))
        | inr (d, e) ↦
            let f = is_armed-found i db.routes d.route (found-route i db d e) in
            let b = unarmed-blocked (arm_of d.route) moment.now (sym f ∙ calm.unarmed unarmed) in
            let q = blocked-Silent σ pick message moment s d b.0 real e b.1 in
            ap (λ p. length p.published_fingerprints) q.1
      ]

  all-unarmed :
      (ms : List (TelegramInboundMessage × Moment)) (s : Session)
      → σ.setup.dry_run ≡ false
      → is_some (get_route_start_context s.runtime.route_id s.db) ≡ true
      → is_armed s.runtime.route_id s.db.routes ≡ false
      → count_published (process_all ms s) ≡ count_published s
  unfolding process_all
  all-unarmed [] s real joined unarmed = refl
  all-unarmed ((message, moment) ∷ rest) s real joined unarmed =
      let t = (process_message σ pick message moment s).1 in
      let k = process_message-Keeps σ pick message moment s.runtime.route_id s in
      all-unarmed rest t real (rw k.1 (k.0.joined joined)) (rw k.1 (k.0.unarmed unarmed))
      ∙ unarmed-same message moment s real joined unarmed

  -- In a real run, from a session whose route has its joined row, the processing of any number of
  -- messages one after the other, each ended by an exception or not, records at most one more
  -- publication: an arm, which no message renews, allows one.
  pub count_published-process_all :
      (ms : List (TelegramInboundMessage × Moment)) (s : Session)
      → σ.setup.dry_run ≡ false
      → is_some (get_route_start_context s.runtime.route_id s.db) ≡ true
      → count_published (process_all ms s) ≤ suc (count_published s)
  unfolding process_all
  count_published-process_all [] s real joined = omega arith
  count_published-process_all ((message, moment) ∷ rest) s real joined =
      let t = (process_message σ pick message moment s).1 in
      let k = process_message-Keeps σ pick message moment s.runtime.route_id s in
      let g = process_message-Grows σ pick message moment s in
      elim (Bool-cases (ltb (count_published s) (count_published t))) [
        | inl more ↦ elim (Option-cases (get_route_start_context s.runtime.route_id s.db)) [
          | inl e ↦ absurd (ground arith)
          | inr (d, e) ↦
              let u = published-disarms σ pick message moment s d real e (ground arith) in
              let a = all-unarmed rest t real (rw k.1 (k.0.joined joined)) (rw k.1 u) in
              omega (arith, a, g)
        ]
        | inr same ↦
            let r = count_published-process_all rest t real (rw k.1 (k.0.joined joined)) in
            let le : count_published t ≤ count_published s = ground arith in omega (arith, r, le)
      ]
