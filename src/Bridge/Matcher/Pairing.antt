-- ===== src/Bridge/Matcher/Pairing.antt =====
-- Which details are published with which seed, and how often.
use basket_recovery_ea.Base.{
  ℕ, suc, ◌+◌, ◌≤◌, ◌≡◌, refl, inl, inr, Option, none, some, arith, length, Option-cases, ap,
}
use basket_recovery_ea.Base.Int.{ℤ}
use basket_recovery_ea.Base.Text.{Text}
use basket_recovery_ea.Bridge.Validation.{validate_seed_format, validate_details_text}
use basket_recovery_ea.Bridge.Publish.{publish_pair, stale_seed_replaced, pair_expired}
use basket_recovery_ea.Bridge.Publish.Effect.{known, length-known, raised-known}
use basket_recovery_ea.Bridge.Matcher.{
  PendingSeed, Matcher, Settings, Clock, clear_telegram, key_of, logged,
  expire_pending_seed_if_needed, publish_found, ingest_telegram_seed, ingest_telegram_details,
  find_seed_for_details, log_replaced, unregister_pending, register,
}
use basket_recovery_ea.Bridge.Matcher.Tidy.{
  IsTidy, expire-IsTidy, find_seed-pending, validated, replied, unregister_seed-keeps,
}

abbrev waiting : Option PendingSeed → ℕ
waiting none = 0
waiting (some seed) = 1

-- The publications made, and the one that the pending seed may still bring.
abbrev pub budget : Matcher → ℕ
budget m = length m.outlet.publisher.published_fingerprints + waiting m.pending_seed

module _ (σ : Settings) where
  expire-budget :
      (p : Option PendingSeed) (clock : Clock) (m : Matcher)
      → m.pending_seed ≡ p
      → budget (expire_pending_seed_if_needed σ clear_telegram clock m) ≤ budget m
  unfolding expire_pending_seed_if_needed
  expire-budget none clock m e = ground arith
  expire-budget (some seed) clock m e =
      ground (arith, unregister_seed-keeps seed (logged (pair_expired (key_of σ seed)) m))

  replace-publisher :
      (p : Option PendingSeed) (m : Matcher)
      → m.pending_seed ≡ p
      → (unregister_pending σ (log_replaced σ m)).outlet.publisher ≡ m.outlet.publisher
  replace-publisher none m e = ground arith
  replace-publisher (some seed) m e =
      ground (arith, unregister_seed-keeps seed (logged (stale_seed_replaced (key_of σ seed)) m))

  register-budget :
      (seed : PendingSeed) (m : Matcher)
      → m.pending_seed ≡ some seed
      → budget (register σ seed m) ≡ suc (length (known m.outlet))
  register-budget seed m e = ground arith

  -- A seed message adds one publication to come, at most.
  pub seed-budget :
      (text message_id channel_id : Text) (grouped_id : Option ℤ) (i : ℤ) (clock : Clock)
      (m : Matcher)
      → budget (ingest_telegram_seed σ text message_id channel_id grouped_id i clock m).1
        ≤ suc (budget m)
  unfolding ingest_telegram_seed
  seed-budget text message_id channel_id grouped_id i clock m =
      let m₁ = expire_pending_seed_if_needed σ clear_telegram clock m in
      let b = expire-budget m.pending_seed clock m refl in
      let k = replace-publisher m₁.pending_seed m₁ refl in
      elim (validated (validate_seed_format text)) [
        | inl (x, refused) ↦ ground (arith, b)
        | inr (pair, good) ↦ rw good (
            ground
              (arith, b, k, ap (λ p. length p.published_fingerprints) k, register-budget _ _ refl))
      ]

  publish_found-budget :
      (seed : PendingSeed) (message_id details : Text) (m : Matcher)
      → m.pending_seed ≡ some seed
      → budget (publish_found σ message_id details (some seed) m).1 ≤ budget m
  unfolding publish_found
  publish_found-budget seed message_id details m e =
      elim (validated (validate_details_text details)) [
        | inl (x, refused) ↦ ground arith
        | inr (text, good) ↦
            let call = publish_pair env setup seed.text text (key_of σ seed) m.outlet in
            let l = length-known env setup seed.text text (key_of σ seed) m.outlet in
            elim (replied call.0) [
              | inl (x, failed) ↦
                  ground
                    (arith, raised-known env setup seed.text text (key_of σ seed) m.outlet call.1 x)
              | inr (result, done) ↦
                  let u = record m { outlet = call.1; pending_seed = none } in
                  ground (arith, l, unregister_seed-keeps seed u)
            ]
      ]
    where
      open σ use {env, setup}

  -- A details message makes a publication only at the expense of the pending seed.
  pub details-budget :
      (text message_id : Text) (grouped_id reply_to : Option ℤ) (clock : Clock) (m : Matcher)
      → IsTidy m
      → budget (ingest_telegram_details σ text message_id grouped_id reply_to clock m).1 ≤ budget m
  unfolding ingest_telegram_details
  details-budget text message_id grouped_id reply_to clock m tidy =
      let m₁ = expire_pending_seed_if_needed σ clear_telegram clock m in
      let b = expire-budget m.pending_seed clock m refl in
      let tidy₁ = expire-IsTidy σ clock m tidy in
      elim (validated (validate_details_text text)) [
        | inl (x, refused) ↦ ground (arith, b)
        | inr (details, good) ↦
            elim (Option-cases (find_seed_for_details σ details grouped_id reply_to m₁)) [
              | inl nobody ↦ unfold publish_found in ground (arith, b)
              | inr (seed, found) ↦ ground (
                arith,
                b,
                publish_found-budget seed message_id details m₁
                    (find_seed-pending σ details grouped_id reply_to m₁ seed tidy₁ found),
              )
            ]
      ]
