-- ===== src/Bridge/Matcher/Tidy.antt =====
-- The dictionary of grouped seeds never holds anything but the pending seed.
use basket_recovery_ea.Base.{
  ◌≡◌, refl, ◌⊎◌, inl, inr, Option, none, some, [], ◌∷◌, arith, All, Bool-cases, Option-cases,
}
use basket_recovery_ea.Base.Int.{ℤ, show_int}
use basket_recovery_ea.Base.Text.{Text, text_eq_refl}
use basket_recovery_ea.Bridge.Publish.{pair_expired, stale_seed_replaced}
use basket_recovery_ea.Bridge.Errors.{Error, Result, ok, err}
use basket_recovery_ea.Bridge.Validation.{validate_seed_format, validate_details_text}
use basket_recovery_ea.Bridge.Publish.{publish_pair}
use basket_recovery_ea.Bridge.Action.{Reply, returned, raised}
use basket_recovery_ea.Bridge.Matcher.{
  PendingSeed, Matcher, Settings, Clock, Registry, find_registered, erase_registered,
  unregister_seed, clear_telegram, publish_found, unregister_pending, log_replaced, register,
  is_expired, logged, key_of, expire_pending_seed_if_needed, ingest_telegram_seed,
  ingest_telegram_details, find_seed_for_details,
}

abbrev Entry : Option PendingSeed → Text × PendingSeed → Type 0
Entry pending e = (pending ≡ some e.1) × (e.1.grouped_id ≡ some e.0)

-- Every registered seed is the pending one, under its own group.
abbrev pub IsTidy : Matcher → Type 0
IsTidy m = All (Entry m.pending_seed) m.seed_by_grouped_id

pub find_registered-pending :
    (pending : Option PendingSeed) (key : Text) (seed : PendingSeed) (reg : Registry)
    → All (Entry pending) reg
    → find_registered key reg ≡ some seed
    → pending ≡ some seed
unfolding find_registered
find_registered-pending pending key seed [] h e = cc
find_registered-pending pending key seed ((k, sd) ∷ reg) h e =
    ground (arith, find_registered-pending pending key seed reg h.1)

erase_registered-pending :
    (seed : PendingSeed) (key : Text) (reg : Registry)
    → seed.grouped_id ≡ some key
    → All (Entry (some seed)) reg
    → erase_registered key reg ≡ []
unfolding erase_registered
erase_registered-pending seed key [] g h = refl
erase_registered-pending seed key ((k, sd) ∷ reg) g h =
    ground (arith, erase_registered-pending seed key reg g h.1, text_eq_refl k)

unregister_seed-empty :
    (seed : PendingSeed) (reg : Registry) (m : Matcher)
    → m.seed_by_grouped_id ≡ reg
    → All (Entry (some seed)) reg
    → (unregister_seed seed m).seed_by_grouped_id ≡ []
unfolding unregister_seed
unregister_seed-empty seed [] m e h = ground arith
unregister_seed-empty seed ((k, sd) ∷ reg) m e h =
    ground (arith, erase_registered-pending seed k ((k, sd) ∷ reg), text_eq_refl k)

-- Unregistering the pending seed empties the dictionary.
pub unregister_seed-pending :
    (seed : PendingSeed) (m : Matcher)
    → IsTidy m
    → m.pending_seed ≡ some seed
    → (unregister_seed seed m).seed_by_grouped_id ≡ []
unregister_seed-pending seed m h e =
    unregister_seed-empty seed m.seed_by_grouped_id m refl (rw e at h)

pub unregister_seed-keeps :
    (seed : PendingSeed) (m : Matcher)
    → let u = unregister_seed seed m in
      (u.pending_seed ≡ m.pending_seed) × (u.outlet ≡ m.outlet) × (u.next_serial ≡ m.next_serial)
unfolding unregister_seed
unregister_seed-keeps seed m = ground arith

tidy-none : (reg : Registry) → All (Entry none) reg → reg ≡ []
tidy-none [] h = refl
tidy-none (e ∷ reg) h = cc (h.0.0)

pub validated {ℓ} :
    {A : Type ℓ} (r : Result A) → ((e : Error) × (r ≡ err e)) ⊎ ((a : A) × (r ≡ ok a))
validated (ok a) = inr (a, refl)
validated (err e) = inl (e, refl)

pub replied :
    {A : Type 0} (r : Reply A) → ((e : Error) × (r ≡ raised e)) ⊎ ((a : A) × (r ≡ returned a))
replied (returned a) = inr (a, refl)
replied (raised e) = inl (e, refl)

module _ (σ : Settings) where
  -- The expiry test leaves the matcher alone, or leaves it with no seed at all.
  pub expire_cases :
      (p : Option PendingSeed) (clock : Clock) (m : Matcher)
      → m.pending_seed ≡ p
      → IsTidy m
      → let u = expire_pending_seed_if_needed σ clear_telegram clock m in
        (u ≡ m) ⊎ ((u.pending_seed ≡ none) × (u.seed_by_grouped_id ≡ []))
  unfolding expire_pending_seed_if_needed
  expire_cases none clock m e h = inl (ground arith)
  expire_cases (some seed) clock m e h = elim (Bool-cases (is_expired σ clock seed)) [
    | inl late ↦
        let m₁ = logged (pair_expired (key_of σ seed)) m in
        inr (ground (arith, unregister_seed-pending seed m₁ h e, unregister_seed-keeps seed m₁))
    | inr fresh ↦ inl (ground arith)
  ]

  pub expire-IsTidy :
      (clock : Clock) (m : Matcher)
      → IsTidy m
      → IsTidy (expire_pending_seed_if_needed σ clear_telegram clock m)
  expire-IsTidy clock m h = elim (expire_cases m.pending_seed clock m refl h) [
    | inl same ↦ rw same h
    | inr (_, e) ↦ rw e tt
  ]

  unregister_pending-empty :
      (p : Option PendingSeed) (m : Matcher)
      → m.pending_seed ≡ p
      → IsTidy m
      → (unregister_pending σ (log_replaced σ m)).seed_by_grouped_id ≡ []
  unregister_pending-empty none m e h = ground (arith, tidy-none m.seed_by_grouped_id (rw e at h))
  unregister_pending-empty (some seed) m e h =
      let m₁ = logged (stale_seed_replaced (key_of σ seed)) m in
      ground (arith, unregister_seed-pending seed m₁ h e)

  register_cases :
      (seed : PendingSeed) (m : Matcher)
      → m.seed_by_grouped_id ≡ []
      → (register σ seed m ≡ m)
        ⊎ ((key : Text) × (seed.grouped_id ≡ some key)
            × (register σ seed m ≡ record m { seed_by_grouped_id = (key, seed) ∷ [] }))
  unfolding erase_registered
  register_cases seed m e = elim (Option-cases seed.grouped_id) [
    | inl alone ↦ inl (ground arith)
    | inr (key, group) ↦ inr (key, group, ground arith)
  ]

  register-IsTidy :
      (seed : PendingSeed) (m : Matcher)
      → m.pending_seed ≡ some seed
      → m.seed_by_grouped_id ≡ []
      → IsTidy (register σ seed m)
  register-IsTidy seed m p e = elim (register_cases seed m e) [
    | inl same ↦ rw same (rw e tt)
    | inr (key, group, one) ↦ rw one ((p, group), tt)
  ]

  ingest_seed-IsTidy_of :
      (r : Result (Text × Text)) (text message_id channel_id : Text) (grouped_id : Option ℤ) (i : ℤ)
      (clock : Clock) (m : Matcher)
      → validate_seed_format text ≡ r
      → IsTidy m
      → IsTidy (ingest_telegram_seed σ text message_id channel_id grouped_id i clock m).1
  unfolding ingest_telegram_seed
  ingest_seed-IsTidy_of (err e) text message_id channel_id grouped_id i clock m h tidy =
      rw h (expire-IsTidy clock m tidy)
  ingest_seed-IsTidy_of (ok (symbol, direction)) text message_id channel_id grouped_id i clock m h
        tidy =
      let m₁ = expire_pending_seed_if_needed σ clear_telegram clock m in
      rw h (
        register-IsTidy _ _ refl
          (unregister_pending-empty m₁.pending_seed m₁ refl (expire-IsTidy clock m tidy)))

  -- A seed message keeps the dictionary tidy, whether it is accepted or refused.
  pub ingest_telegram_seed-IsTidy :
      (text message_id channel_id : Text) (grouped_id : Option ℤ) (i : ℤ) (clock : Clock)
      (m : Matcher)
      → IsTidy m
      → IsTidy (ingest_telegram_seed σ text message_id channel_id grouped_id i clock m).1
  ingest_telegram_seed-IsTidy text message_id channel_id grouped_id i clock m =
      ingest_seed-IsTidy_of (validate_seed_format text) text message_id channel_id grouped_id i
        clock m refl

  -- The seed that details are matched with is the pending one.
  pub find_seed-pending :
      (details : Text) (grouped_id reply_to : Option ℤ) (m : Matcher) (seed : PendingSeed)
      → IsTidy m
      → find_seed_for_details σ details grouped_id reply_to m ≡ some seed
      → m.pending_seed ≡ some seed
  unfolding find_seed_for_details
  find_seed-pending details none reply_to m seed tidy e = ground arith
  find_seed-pending details (some z) reply_to m seed tidy e =
      ground
        (arith, find_registered-pending m.pending_seed (show_int z) seed m.seed_by_grouped_id tidy)

  -- Publishing details with the pending seed: it raises and the matcher keeps the seed, or it
  -- returns and the matcher has no seed any more.
  pub publish_found_cases :
      (seed : PendingSeed) (message_id details : Text) (m : Matcher)
      → IsTidy m
      → m.pending_seed ≡ some seed
      → let (r, u) = publish_found σ message_id details (some seed) m in
        ((e : Error) × (r ≡ raised e)
          × (u.pending_seed ≡ m.pending_seed)
          × (u.seed_by_grouped_id ≡ m.seed_by_grouped_id))
        ⊎ ((r ≡ returned tt) × (u.pending_seed ≡ none) × (u.seed_by_grouped_id ≡ []))
  unfolding publish_found
  publish_found_cases seed message_id details m tidy e =
      elim (validated (validate_details_text details)) [
        | inl (x, refused) ↦ inl (x, ground arith, ground arith, ground arith)
        | inr (text, good) ↦
            let call = publish_pair env setup seed.text text (key_of σ seed) m.outlet in
            elim (replied call.0) [
              | inl (x, failed) ↦ inl (x, ground arith, ground arith, ground arith)
              | inr (result, done) ↦
                  let u = record m { outlet = call.1; pending_seed = none } in
                  let k = unregister_seed-keeps seed u in
                  let h = unregister_seed-empty seed m.seed_by_grouped_id u refl (rw e at tidy) in
                  inr (ground arith, ground (arith, k), ground (arith, h))
            ]
      ]
    where
      open σ use {env, setup}

  publish_found-IsTidy :
      (o : Option PendingSeed) (message_id details : Text) (m : Matcher)
      → IsTidy m
      → ((seed : PendingSeed) → o ≡ some seed → m.pending_seed ≡ some seed)
      → IsTidy (publish_found σ message_id details o m).1
  publish_found-IsTidy none message_id details m tidy found = unfold publish_found in tidy
  publish_found-IsTidy (some seed) message_id details m tidy found =
      elim (publish_found_cases seed message_id details m tidy (found seed refl)) [
        | inl (e, _, p, r) ↦ rw (p, r) tidy
        | inr (_, _, r) ↦ rw r tt
      ]

  -- A details message keeps the dictionary tidy, however it ends.
  pub ingest_telegram_details-IsTidy :
      (text message_id : Text) (grouped_id reply_to : Option ℤ) (clock : Clock) (m : Matcher)
      → IsTidy m
      → IsTidy (ingest_telegram_details σ text message_id grouped_id reply_to clock m).1
  unfolding ingest_telegram_details
  ingest_telegram_details-IsTidy text message_id grouped_id reply_to clock m tidy =
      let m₁ = expire_pending_seed_if_needed σ clear_telegram clock m in
      let tidy₁ = expire-IsTidy clock m tidy in
      elim (validated (validate_details_text text)) [
        | inl (e, refused) ↦ rw refused tidy₁
        | inr (details, good) ↦ rw good (
            publish_found-IsTidy _ message_id details m₁ tidy₁
              (λ seed. find_seed-pending details grouped_id reply_to m₁ seed tidy₁))
      ]
