-- ===== src/Bridge/Matcher.antt =====
-- `PendingSeed`, `PairMatcher` and `TelegramPairMatcher` of fasttrack_file_bridge.py. An object's
-- identity, which `is` compares, is a serial number. `time.monotonic()` is a natural number of
-- nanoseconds, read at the points where the code reads it.
pub mod Tidy
pub mod Pairing
pub mod Choice
pub mod Raise
pub mod Growth
use basket_recovery_ea.Base.{
  ℕ, suc, ◌+◌, ◌*◌, Bool, true, false, ◌&&◌, Option, none, some, List, [], ◌∷◌, ◌==◌, ltb,
  if◌then◌else◌,
}
use basket_recovery_ea.Base.Text.{Text, codes, text_eq, strip}
use basket_recovery_ea.Base.Int.{ℤ, int_eq, show_int}
use basket_recovery_ea.Bridge.Action.{returned, Action, lift, modify, ◌>>=◌, ◌>>◌}
use basket_recovery_ea.Bridge.Validation.{
  validate_seed_format, validate_details_text, parse_details_header_symbol_direction,
}
use basket_recovery_ea.Bridge.Fingerprint.{build_correlation_key}
use basket_recovery_ea.Bridge.Publish.{
  LogEntry, pair_expired, stale_seed_replaced, details_without_seed, Outlet, Env, Setup, written,
  publish_pair,
}

-- `PendingSeed`
pub record PendingSeed : Type 0 where
  pub serial : ℕ
  pub text : Text
  pub message_id : Text
  pub symbol : Text
  pub direction : Text
  pub received_at : ℕ
  pub channel_id : Text
  pub grouped_id : Option Text
  pub telegram_message_id : Option ℤ

-- `a is b`
abbrev pub is_same : PendingSeed → PendingSeed → Bool
is_same a b = a.serial == b.serial

-- The matcher's attributes that change, `_seed_by_grouped_id` among them.
pub record Matcher : Type 0 where
  pub outlet : Outlet
  pub pending_seed : Option PendingSeed
  pub seed_by_grouped_id : List (Text × PendingSeed)
  pub next_serial : ℕ

-- The attributes that stay.
pub record Settings : Type 0 where
  pub env : Env
  pub setup : Setup
  pub pair_timeout_seconds : ℕ

-- The readings of `_now()` in one call: for the expiry test, and for a seed's arrival.
pub record Clock : Type 0 where
  pub at_check : ℕ
  pub at_receipt : ℕ

abbrev pub nanoseconds : ℕ
nanoseconds = 1000000000

abbrev pub Registry : Type 0
Registry = List (Text × PendingSeed)

unfoldable pub find_registered : Text → Registry → Option PendingSeed
find_registered key [] = none
find_registered key ((k, seed) ∷ rest) =
    if text_eq k key then some seed else find_registered key rest

unfoldable pub erase_registered : Text → Registry → Registry
erase_registered key [] = []
erase_registered key ((k, seed) ∷ rest) =
    let kept = erase_registered key rest in if text_eq k key then kept else (k, seed) ∷ kept

abbrev pub logged : LogEntry → Matcher → Matcher
logged entry m = record m { outlet = written entry m.outlet }

abbrev on_outlet : {A : Type 0} → Action Outlet A → Action Matcher A
on_outlet a m = let (r, o) = a m.outlet in (r, record m { outlet = o })

abbrev or_default : Text → Text → Text
or_default [] default = default
or_default (c ∷ t) default = c ∷ t

abbrev is_pending : PendingSeed → Matcher → Bool
is_pending seed m = elim m.pending_seed [ none ↦ false | some p ↦ is_same p seed ]

-- `PairMatcher._clear_pending_seed`
abbrev pub clear_pending : PendingSeed → Matcher → Matcher
clear_pending seed m = if is_pending seed m then record m { pending_seed = none } else m

registered_is : PendingSeed → Option PendingSeed → Bool
registered_is seed none = false
registered_is seed (some s) = is_same s seed

-- `TelegramPairMatcher._unregister_seed`
unfoldable pub unregister_seed : PendingSeed → Matcher → Matcher
unfolding registered_is find_registered erase_registered
unregister_seed seed m = elim seed.grouped_id [
  | none ↦ m
  | some key ↦
      if registered_is seed (find_registered key m.seed_by_grouped_id)
      then record m { seed_by_grouped_id = erase_registered key m.seed_by_grouped_id }
      else m
]

-- `TelegramPairMatcher._clear_pending_seed`
abbrev pub clear_telegram : PendingSeed → Matcher → Matcher
clear_telegram seed m = clear_pending seed (unregister_seed seed m)

module _ (σ : Settings) where
  open σ use {env, setup, pair_timeout_seconds}

  abbrev pub key_of : PendingSeed → Text
  key_of seed =
      build_correlation_key env.utc_date seed.symbol seed.direction seed.message_id seed.channel_id

  -- `elapsed > self.pair_timeout_seconds`
  abbrev pub is_expired : Clock → PendingSeed → Bool
  is_expired clock seed = ltb (seed.received_at + pair_timeout_seconds * nanoseconds) clock.at_check

  -- `_expire_pending_seed_if_needed`; `clear` is the method of the object's class.
  unfoldable pub expire_pending_seed_if_needed :
      (PendingSeed → Matcher → Matcher) → Clock → Matcher → Matcher
  expire_pending_seed_if_needed clear clock m = elim m.pending_seed [
    | none ↦ m
    | some seed ↦
        if is_expired clock seed then clear seed (logged (pair_expired (key_of seed)) m) else m
  ]

  -- The log line for a seed that a newer one replaces.
  abbrev pub log_replaced : Matcher → Matcher
  log_replaced m = elim m.pending_seed [
    | none ↦ m
    | some seed ↦ logged (stale_seed_replaced (key_of seed)) m
  ]

  -- `PairMatcher.ingest_seed`
  unfoldable pub ingest_seed : Text → Text → Clock → Action Matcher (Unit {0})
  unfolding expire_pending_seed_if_needed
  ingest_seed text message_id clock = do
    modify (expire_pending_seed_if_needed clear_pending clock)
    (symbol, direction) ← lift (validate_seed_format text)
    modify log_replaced
    modify (λ m. record m {
      pending_seed = some (record {
        serial = m.next_serial;
        text = strip text;
        message_id = or_default message_id (codes "unknown-seed");
        symbol = symbol;
        direction = direction;
        received_at = clock.at_receipt;
        channel_id = [];
        grouped_id = none;
        telegram_message_id = none;
      });
      next_serial = suc m.next_serial;
    })

  -- `PairMatcher.ingest_details`
  unfoldable pub ingest_details : Text → Text → Clock → Action Matcher (Unit {0})
  unfolding expire_pending_seed_if_needed
  ingest_details text message_id clock = do
    modify (expire_pending_seed_if_needed clear_pending clock)
    details ← lift (validate_details_text text)
    λ m. elim m.pending_seed [
      | none ↦ (
        returned tt,
        logged (details_without_seed (or_default message_id (codes "unknown-details"))) m,
      )
      | some seed ↦
          (do
            on_outlet (publish_pair env setup seed.text details (key_of seed)) >>= λ _.
                modify (λ m'. record m' { pending_seed = none }))
            m
    ]

  -- `PairMatcher.publish_matched_pair`
  unfoldable pub publish_matched_pair : PendingSeed → Text → Action Matcher (Unit {0})
  publish_matched_pair seed details_text = do
    details ← lift (validate_details_text details_text)
    result ← on_outlet (publish_pair env setup seed.text details (key_of seed))
    modify (clear_pending seed)

  abbrev pub unregister_pending : Matcher → Matcher
  unregister_pending m = elim m.pending_seed [ none ↦ m | some seed ↦ unregister_seed seed m ]

  abbrev pub register : PendingSeed → Matcher → Matcher
  register seed m = elim seed.grouped_id [
    | none ↦ m
    | some key ↦ record m {
      seed_by_grouped_id = (key, seed) ∷ erase_registered key m.seed_by_grouped_id;
    }
  ]

  abbrev show_grouped : Option ℤ → Option Text
  show_grouped none = none
  show_grouped (some z) = some (show_int z)

  -- `TelegramPairMatcher.ingest_telegram_seed`
  unfoldable pub ingest_telegram_seed :
      Text → Text → Text → Option ℤ → ℤ → Clock → Action Matcher (Unit {0})
  unfolding expire_pending_seed_if_needed erase_registered
  ingest_telegram_seed text message_id channel_id grouped_id telegram_message_id clock = do
    modify (expire_pending_seed_if_needed clear_telegram clock)
    (symbol, direction) ← lift (validate_seed_format text)
    modify (λ m. unregister_pending (log_replaced m))
    modify (λ m.
        let seed : PendingSeed = record {
          serial = m.next_serial;
          text = strip text;
          message_id = message_id;
          symbol = symbol;
          direction = direction;
          received_at = clock.at_receipt;
          channel_id = channel_id;
          grouped_id = show_grouped grouped_id;
          telegram_message_id = some telegram_message_id;
        } in
        register seed (record m { pending_seed = some seed; next_serial = suc m.next_serial }))

  abbrev pub fits_header : PendingSeed → Option (Text × Text) → Bool
  fits_header seed none = false
  fits_header seed (some (symbol, direction)) =
      text_eq seed.symbol symbol && text_eq seed.direction direction

  abbrev pub fits_or_no_header : PendingSeed → Option (Text × Text) → Bool
  fits_or_no_header seed none = true
  fits_or_no_header seed (some header) = fits_header seed (some header)

  abbrev pub keep_if : (PendingSeed → Bool) → Option PendingSeed → Option PendingSeed
  keep_if test none = none
  keep_if test (some seed) = if test seed then some seed else none

  abbrev or_else : Option PendingSeed → Option PendingSeed → Option PendingSeed
  or_else none other = other
  or_else (some seed) other = some seed

  abbrev pub seed_of_group : Option ℤ → Matcher → Option PendingSeed
  seed_of_group none m = none
  seed_of_group (some z) m = find_registered (show_int z) m.seed_by_grouped_id

  abbrev pub answers : Option ℤ → PendingSeed → Bool
  answers none seed = false
  answers (some z) seed = elim seed.telegram_message_id [ none ↦ false | some i ↦ int_eq i z ]

  -- `TelegramPairMatcher.find_seed_for_details`: by group, then by reply, then by header.
  unfoldable pub find_seed_for_details : Text → Option ℤ → Option ℤ → Matcher → Option PendingSeed
  find_seed_for_details details_text grouped_id reply_to_msg_id m =
      let header = parse_details_header_symbol_direction details_text in
      or_else (keep_if (λ seed. fits_or_no_header seed header) (seed_of_group grouped_id m)) (
        or_else (keep_if (answers reply_to_msg_id) m.pending_seed)
          (keep_if (λ seed. fits_header seed header) m.pending_seed))

  pub publish_found : Text → Text → Option PendingSeed → Action Matcher (Unit {0})
  unfolding publish_matched_pair
  publish_found message_id details none m =
      (returned tt, logged (details_without_seed message_id) m)
  publish_found message_id details (some seed) m =
      (do publish_matched_pair seed details; modify (unregister_seed seed)) m

  -- `TelegramPairMatcher.ingest_telegram_details`
  unfoldable pub ingest_telegram_details :
      Text → Text → Option ℤ → Option ℤ → Clock → Action Matcher (Unit {0})
  unfolding expire_pending_seed_if_needed publish_found
  ingest_telegram_details text message_id grouped_id reply_to_msg_id clock = do
    modify (expire_pending_seed_if_needed clear_telegram clock)
    details ← lift (validate_details_text text)
    λ m.
        publish_found message_id details
          (find_seed_for_details details grouped_id reply_to_msg_id m) m
