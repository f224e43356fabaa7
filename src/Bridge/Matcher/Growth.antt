-- ===== src/Bridge/Matcher/Growth.antt =====
-- One message brings one publication at most: the matcher.
use basket_recovery_ea.Base.{inl, inr, Option, none, some, arith, length, suc, ◌≤◌, ap, List}
use basket_recovery_ea.Base.Int.{ℤ}
use basket_recovery_ea.Base.Text.{Text}
use basket_recovery_ea.Bridge.Validation.{validate_details_text}
use basket_recovery_ea.Bridge.Publish.{publish_pair}
use basket_recovery_ea.Bridge.Publish.Effect.{known, length-known}
use basket_recovery_ea.Bridge.Matcher.{
  PendingSeed, Matcher, Settings, Clock, key_of, clear_telegram, expire_pending_seed_if_needed,
  unregister_seed, find_seed_for_details, publish_found, ingest_telegram_details, clear_pending,
  ingest_telegram_seed, unregister_seed,
}
use basket_recovery_ea.Bridge.Matcher.Tidy.{validated, unregister_seed-keeps}
use basket_recovery_ea.Bridge.Matcher.Tidy.{unregister_seed-keeps, replied}
use basket_recovery_ea.Bridge.Matcher.Raise.{expire-known}

module _ (σ : Settings) where
  publish_found-growth :
      (o : Option PendingSeed) (message_id text : Text) (m : Matcher)
      → length (known (publish_found σ message_id text o m).1.outlet)
        ≤ suc (length (known m.outlet))
  unfolding publish_found
  publish_found-growth none message_id text m = ground arith
  publish_found-growth (some seed) message_id text m =
      elim (validated (validate_details_text text)) [
        | inl (x, refused) ↦ ground arith
        | inr (content, good) ↦
            let call = publish_pair σ.env σ.setup seed.text content (key_of σ seed) m.outlet in
            let l = length-known σ.env σ.setup seed.text content (key_of σ seed) m.outlet in
            elim (replied call.0) [
              | inl (x, failed) ↦ ground (arith, l)
              | inr (result, done) ↦
                  let u = clear_pending seed (record m { outlet = call.1 }) in
                  ground (arith, l, unregister_seed-keeps seed u)
            ]
      ]

  pub details-growth :
      (text message_id : Text) (grouped_id reply_to : Option ℤ) (clock : Clock) (m : Matcher)
      → length
          (known (ingest_telegram_details σ text message_id grouped_id reply_to clock m).1.outlet)
        ≤ suc (length (known m.outlet))
  unfolding ingest_telegram_details
  details-growth text message_id grouped_id reply_to clock m =
      let m₁ = expire_pending_seed_if_needed σ clear_telegram clock m in
      let k = ap (λ (l : List Text). length l) (expire-known σ clock m) in
      elim (validated (validate_details_text text)) [
        | inl (x, refused) ↦ ground (arith, k)
        | inr (content, good) ↦
            let o = find_seed_for_details σ content grouped_id reply_to m₁ in
            ground (arith, k, publish_found-growth o message_id content m₁)
      ]

  pub seed-growth :
      (text message_id channel_id : Text) (grouped_id : Option ℤ) (i : ℤ) (clock : Clock)
      (m : Matcher)
      → length
          (known (ingest_telegram_seed σ text message_id channel_id grouped_id i clock m).1.outlet)
        ≤ length (known m.outlet)
  unfolding ingest_telegram_seed expire_pending_seed_if_needed unregister_seed
  seed-growth text message_id channel_id grouped_id i clock m = ground arith
