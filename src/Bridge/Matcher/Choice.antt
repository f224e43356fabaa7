-- ===== src/Bridge/Matcher/Choice.antt =====
-- Which seed a details message is published with: every case of `find_seed_for_details`.
use basket_recovery_ea.Base.{
  Bool, true, ◌≡◌, refl, ◌⊎◌, inl, inr, Option, none, some, [], arith, Option-cases, ◌&&◌, ◌||◌,
  is_some,
}
use basket_recovery_ea.Base.Int.{ℤ, show_int}
use basket_recovery_ea.Base.Text.{Text}
use basket_recovery_ea.Bridge.Validation.{
  validate_details_text, parse_details_header_symbol_direction,
}
use basket_recovery_ea.Bridge.Publish.{pair_expired}
use basket_recovery_ea.Bridge.Matcher.{
  PendingSeed, Matcher, Settings, Clock, clear_telegram, is_expired, key_of, logged,
  expire_pending_seed_if_needed, publish_found, ingest_telegram_details, find_seed_for_details,
  find_registered, fits_header, answers, keep_if, fits_or_no_header, seed_of_group,
}
use basket_recovery_ea.Bridge.Matcher.Tidy.{
  IsTidy, find_registered-pending, unregister_seed-pending, unregister_seed-keeps, validated,
}

-- The conditions under which details go with the pending seed: its group is registered and no
-- header speaks against it, or they answer its message, or their header fits.
abbrev pub goes_with : Settings → Text → Option ℤ → Option ℤ → Matcher → PendingSeed → Bool
goes_with σ details grouped_id reply_to m seed =
    let header = parse_details_header_symbol_direction details in
    (is_some (seed_of_group σ grouped_id m) && fits_or_no_header σ seed header)
    || answers σ reply_to seed
    || fits_header σ seed header

module _ (σ : Settings) where
  group-pending :
      (grouped_id : Option ℤ) (m : Matcher)
      → IsTidy m
      → (seed_of_group σ grouped_id m ≡ none)
        ⊎ ((seed : PendingSeed) × (seed_of_group σ grouped_id m ≡ some seed)
            × (m.pending_seed ≡ some seed))
  group-pending none m tidy = inl refl
  group-pending (some z) m tidy =
      elim (Option-cases (find_registered (show_int z) m.seed_by_grouped_id)) [
        | inl nobody ↦ inl nobody
        | inr (seed, found) ↦ inr (
          seed,
          found,
          find_registered-pending m.pending_seed (show_int z) seed m.seed_by_grouped_id tidy found,
        )
      ]

  -- When the dictionary holds at most the pending seed, details are matched with the pending seed
  -- or with none: with it exactly if their group is registered and no header of theirs speaks
  -- against it, or they answer its message, or their header fits it.
  pub find_seed_for_details_lem :
      (details : Text) (grouped_id reply_to : Option ℤ) (m : Matcher)
      → IsTidy m
      → find_seed_for_details σ details grouped_id reply_to m
        ≡ keep_if σ (goes_with σ details grouped_id reply_to m) m.pending_seed
  unfolding find_seed_for_details
  find_seed_for_details_lem details grouped_id reply_to m tidy =
      elim (group-pending grouped_id m tidy) [
        | inl nobody ↦ ground arith
        | inr (seed, found, pending) ↦ ground arith
      ]

  expired :
      (clock : Clock) (m : Matcher) (seed : PendingSeed)
      → IsTidy m
      → m.pending_seed ≡ some seed
      → is_expired σ clock seed ≡ true
      → let u = expire_pending_seed_if_needed σ clear_telegram clock m in
        (u.outlet.world ≡ m.outlet.world)
        × (u.outlet.publisher ≡ m.outlet.publisher)
        × (u.pending_seed ≡ none)
        × (u.seed_by_grouped_id ≡ [])
  unfolding expire_pending_seed_if_needed
  expired clock m seed tidy e late =
      let m₁ = logged (pair_expired (key_of σ seed)) m in
      ground (arith, unregister_seed-pending seed m₁ tidy e, unregister_seed-keeps seed m₁)

  find-nothing :
      (grouped_id reply_to : Option ℤ) (m : Matcher)
      → m.pending_seed ≡ none
      → m.seed_by_grouped_id ≡ []
      → (details : Text) → find_seed_for_details σ details grouped_id reply_to m ≡ none
  unfolding find_seed_for_details find_registered
  find-nothing none reply_to m p r details = ground arith
  find-nothing (some z) reply_to m p r details = ground arith

  -- When the dictionary holds at most the pending seed and that seed has expired, a details
  -- message leaves the directory and the publisher alone, and afterwards no seed is pending or
  -- registered.
  pub late_details :
      (text message_id : Text) (grouped_id reply_to : Option ℤ) (clock : Clock) (m : Matcher)
      (seed : PendingSeed)
      → IsTidy m
      → m.pending_seed ≡ some seed
      → is_expired σ clock seed ≡ true
      → let u = (ingest_telegram_details σ text message_id grouped_id reply_to clock m).1 in
        (u.outlet.world ≡ m.outlet.world)
        × (u.outlet.publisher ≡ m.outlet.publisher)
        × (u.pending_seed ≡ none)
        × (u.seed_by_grouped_id ≡ [])
  unfolding ingest_telegram_details
  late_details text message_id grouped_id reply_to clock m seed tidy e late =
      let m₁ = expire_pending_seed_if_needed σ clear_telegram clock m in
      let h = expired clock m seed tidy e late in
      let f = find-nothing grouped_id reply_to m₁ h.2 h.3 in
      elim (validated (validate_details_text text)) [
        | inl (x, refused) ↦ ground (arith, h)
        | inr (details, good) ↦ unfold publish_found in ground (arith, h, f details)
      ]
