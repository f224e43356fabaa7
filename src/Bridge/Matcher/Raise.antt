-- ===== src/Bridge/Matcher/Raise.antt =====
-- A matcher that raises on details has published nothing.
use basket_recovery_ea.Base.{◌≡◌, inl, inr, Option, none, some, arith}
use basket_recovery_ea.Base.Int.{ℤ}
use basket_recovery_ea.Base.Text.{Text}
use basket_recovery_ea.Bridge.Errors.{Error}
use basket_recovery_ea.Bridge.Action.{raised}
use basket_recovery_ea.Bridge.Validation.{validate_details_text}
use basket_recovery_ea.Bridge.Publish.{publish_pair}
use basket_recovery_ea.Bridge.Publish.Effect.{known, raised-known}
use basket_recovery_ea.Bridge.Matcher.{
  PendingSeed, Matcher, Settings, Clock, key_of, clear_telegram, expire_pending_seed_if_needed,
  unregister_seed, find_seed_for_details, publish_found, ingest_telegram_details,
}
use basket_recovery_ea.Bridge.Matcher.Tidy.{validated}
use basket_recovery_ea.Bridge.Matcher.Tidy.{replied}

module _ (σ : Settings) where
  publish_found-raised :
      (o : Option PendingSeed) (message_id text : Text) (m : Matcher) (e : Error)
      → (publish_found σ message_id text o m).0 ≡ raised e
      → known (publish_found σ message_id text o m).1.outlet ≡ known m.outlet
  unfolding publish_found
  publish_found-raised none message_id text m e h = ground arith
  publish_found-raised (some seed) message_id text m e h =
      elim (validated (validate_details_text text)) [
        | inl (x, refused) ↦ ground arith
        | inr (content, good) ↦
            let call = publish_pair σ.env σ.setup seed.text content (key_of σ seed) m.outlet in
            elim (replied call.0) [
              | inl (x, failed) ↦ ground (
                arith,
                raised-known σ.env σ.setup seed.text content (key_of σ seed) m.outlet call.1 x,
              )
              | inr (result, done) ↦ ground arith
            ]
      ]

  pub expire-known :
      (clock : Clock) (m : Matcher)
      → known (expire_pending_seed_if_needed σ clear_telegram clock m).outlet ≡ known m.outlet
  unfolding expire_pending_seed_if_needed unregister_seed
  expire-known clock m = ground arith

  pub details-raised :
      (text message_id : Text) (grouped_id reply_to : Option ℤ) (clock : Clock) (m : Matcher)
      (e : Error)
      → (ingest_telegram_details σ text message_id grouped_id reply_to clock m).0 ≡ raised e
      → known (ingest_telegram_details σ text message_id grouped_id reply_to clock m).1.outlet
        ≡ known m.outlet
  unfolding ingest_telegram_details
  details-raised text message_id grouped_id reply_to clock m e h =
      let m₁ = expire_pending_seed_if_needed σ clear_telegram clock m in
      let k = expire-known clock m in
      elim (validated (validate_details_text text)) [
        | inl (x, refused) ↦ ground (arith, k)
        | inr (content, good) ↦
            let o = find_seed_for_details σ content grouped_id reply_to m₁ in
            ground (arith, k, publish_found-raised o message_id content m₁ e)
      ]
