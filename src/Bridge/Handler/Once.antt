-- ===== src/Bridge/Handler/Once.antt =====
-- Duplicates: what has been handled changes nothing but the log.
use basket_recovery_ea.Base.{
  true, false, ◌≡◌, ◌≢◌, refl, ap, ◌⊎◌, inl, inr, List, ◌∷◌, arith, Bool-cases,
}
use basket_recovery_ea.Base.Int.{show_int}
use basket_recovery_ea.Base.Text.{Text, text_eq_refl, strip, utf8}
use basket_recovery_ea.Bridge.Action.{returned}
use basket_recovery_ea.Bridge.Classify.{
  Classification, empty, non_ascii, seed, details, unrecognized, classify_telegram_text,
}
use basket_recovery_ea.Bridge.Validation.{normalize_line_endings}
use basket_recovery_ea.Bridge.Fingerprint.{raw_message_hash}
use basket_recovery_ea.Bridge.Publish.{telegram_dedup, empty_message, non_ascii_message, LogEntry}
use basket_recovery_ea.Bridge.Matcher.{Settings, Clock}
use basket_recovery_ea.Bridge.Handler.{
  TelegramInboundMessage, Handler, message_key, is_seen, noted, hash_of, handle, by_class, accept,
}

is_seen-cons : (key : Text) (keys : List Text) → is_seen key (key ∷ keys) ≡ true
unfolding is_seen
is_seen-cons key keys = rw (text_eq_refl key)

-- The message is known by its key or by its text, or its text is nothing to handle.
abbrev Quiet : Settings → TelegramInboundMessage → Handler → Type 0
Quiet σ m h =
    (is_seen (message_key m) h.seen_message_keys ≡ true)
    ⊎ (is_seen (hash_of σ m) h.seen_raw_hashes ≡ true)
    ⊎ (classify_telegram_text m.text ≡ empty)
    ⊎ (classify_telegram_text m.text ≡ non_ascii)

-- The call returns and changes nothing but the log.
abbrev pub OnlyLogs : Settings → TelegramInboundMessage → Clock → Handler → Type 0
OnlyLogs σ m clock h = (entry : LogEntry) × (handle σ m clock h ≡ (returned tt, noted entry h))

module _ (σ : Settings) (m : TelegramInboundMessage) (clock : Clock) (h : Handler) where
  same_text-OnlyLogs_of :
      (c : Classification)
      → classify_telegram_text m.text ≡ c
      → is_seen (hash_of σ m) h.seen_raw_hashes ≡ true
      → OnlyLogs σ m clock h
  unfolding handle
  same_text-OnlyLogs_of c e seen_text =
      elim (Bool-cases (is_seen (message_key m) h.seen_message_keys)) [
        | inl known ↦ (telegram_dedup (show_int m.message_id), ground arith)
        | inr new ↦ rw (new, e) (by_case c)
      ]
    where
      by_case :
          (k : Classification)
          → (entry : LogEntry) × (by_class σ k m clock h ≡ (returned tt, noted entry h))
      by_case empty = (empty_message (show_int m.message_id), refl)
      by_case non_ascii = (non_ascii_message (show_int m.message_id), refl)
      by_case seed = (telegram_dedup (show_int m.message_id), ground arith)
      by_case details = (telegram_dedup (show_int m.message_id), ground arith)
      by_case unrecognized = (telegram_dedup (show_int m.message_id), ground arith)

  same_text-OnlyLogs : is_seen (hash_of σ m) h.seen_raw_hashes ≡ true → OnlyLogs σ m clock h
  same_text-OnlyLogs = same_text-OnlyLogs_of (classify_telegram_text m.text) refl

  handle-Quiet : Quiet σ m h → OnlyLogs σ m clock h
  unfolding handle
  handle-Quiet (inl known) = (telegram_dedup (show_int m.message_id), ground arith)
  handle-Quiet (inr (inl seen_text)) = same_text-OnlyLogs seen_text
  handle-Quiet (inr (inr (inl e))) =
      elim (Bool-cases (is_seen (message_key m) h.seen_message_keys)) [
        | inl known ↦ (telegram_dedup (show_int m.message_id), ground arith)
        | inr new ↦ (empty_message (show_int m.message_id), ground arith)
      ]
  handle-Quiet (inr (inr (inr e))) =
      elim (Bool-cases (is_seen (message_key m) h.seen_message_keys)) [
        | inl known ↦ (telegram_dedup (show_int m.message_id), ground arith)
        | inr new ↦ (non_ascii_message (show_int m.message_id), ground arith)
      ]

module _ (σ : Settings) (m : TelegramInboundMessage) (clock : Clock) (h : Handler) where
  accepted-hashes :
      (c : Classification) → is_seen (hash_of σ m) (accept σ c m clock h).1.seen_raw_hashes ≡ true
  unfolding accept
  accepted-hashes empty = ground (arith, is_seen-cons (hash_of σ m) h.seen_raw_hashes)
  accepted-hashes non_ascii = ground (arith, is_seen-cons (hash_of σ m) h.seen_raw_hashes)
  accepted-hashes seed = ground (arith, is_seen-cons (hash_of σ m) h.seen_raw_hashes)
  accepted-hashes details = ground (arith, is_seen-cons (hash_of σ m) h.seen_raw_hashes)
  accepted-hashes unrecognized = ground (arith, is_seen-cons (hash_of σ m) h.seen_raw_hashes)

  class-Quiet :
      (c : Classification)
      → classify_telegram_text m.text ≡ c
      → Quiet σ m (by_class σ c m clock h).1
  unfolding by_class
  class-Quiet empty e = inr (inr (inl e))
  class-Quiet non_ascii e = inr (inr (inr e))
  class-Quiet seed e = inr (inl (accepted-hashes seed))
  class-Quiet details e = inr (inl (accepted-hashes details))
  class-Quiet unrecognized e = inr (inl (accepted-hashes unrecognized))

  -- A message that has been handled, whatever came of it, is not handled again: its next delivery
  -- to the resulting handler returns and changes nothing but the log.
  pub handle_again : (later : Clock) → OnlyLogs σ m later (handle σ m clock h).1
  handle_again later = handle-Quiet σ m later (handle σ m clock h).1 quiet
    where
      quiet : Quiet σ m (handle σ m clock h).1
      quiet =
          unfold handle in
          elim (Bool-cases (is_seen (message_key m) h.seen_message_keys)) [
            | inl known ↦ inl (ground arith)
            | inr new ↦ rw new (class-Quiet (classify_telegram_text m.text) refl)
          ]

  hash_remembered :
      (c : Classification)
      → classify_telegram_text m.text ≡ c
      → is_seen (message_key m) h.seen_message_keys ≡ false
      → c ≢ empty
      → c ≢ non_ascii
      → is_seen (hash_of σ m) (handle σ m clock h).1.seen_raw_hashes ≡ true
  unfolding handle by_class
  hash_remembered empty e new h₁ h₂ = absurd (h₁ refl)
  hash_remembered non_ascii e new h₁ h₂ = absurd (h₂ refl)
  hash_remembered seed e new h₁ h₂ = rw (new, e) (accepted-hashes seed)
  hash_remembered details e new h₁ h₂ = rw (new, e) (accepted-hashes details)
  hash_remembered unrecognized e new h₁ h₂ = rw (new, e) (accepted-hashes unrecognized)

  -- Once a message with a new key, of a text that is neither empty nor beyond ASCII, has been
  -- handled, whatever came of it, every message with the same text up to line endings and outer
  -- whitespace is skipped, at any time and with any id: the call returns and changes nothing but
  -- the log.
  pub same_text_again :
      (m' : TelegramInboundMessage) (later : Clock)
      → is_seen (message_key m) h.seen_message_keys ≡ false
      → classify_telegram_text m.text ≢ empty
      → classify_telegram_text m.text ≢ non_ascii
      → strip (normalize_line_endings m'.text) ≡ strip (normalize_line_endings m.text)
      → OnlyLogs σ m' later (handle σ m clock h).1
  unfolding raw_message_hash
  same_text_again m' later new filled ascii same =
      let k : hash_of σ m' ≡ hash_of σ m = ap (λ t. σ.env.sha256 (utf8 t)) same in
      same_text-OnlyLogs σ m' later (handle σ m clock h).1
        (rw k (hash_remembered (classify_telegram_text m.text) refl new filled ascii))
