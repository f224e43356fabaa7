-- ===== src/Bridge/Handler/Run.antt =====
-- A whole stream of messages: the invariant of the matcher, and how many pairs can be published.
use basket_recovery_ea.Base.{
  ℕ, ◌+◌, ◌≤◌, Bool, true, false, inl, inr, List, [], ◌∷◌, arith, if◌then◌else◌, length, Bool-cases,
}
use basket_recovery_ea.Base.Int.{show_int}
use basket_recovery_ea.Bridge.Classify.{
  Classification, empty, non_ascii, seed, details, unrecognized, classify_telegram_text,
}
use basket_recovery_ea.Bridge.Publish.Effect.{known}
use basket_recovery_ea.Bridge.Matcher.{Settings, Clock}
use basket_recovery_ea.Bridge.Matcher.Tidy.{
  IsTidy, ingest_telegram_seed-IsTidy, ingest_telegram_details-IsTidy,
}
use basket_recovery_ea.Bridge.Matcher.Pairing.{budget, seed-budget, details-budget}
use basket_recovery_ea.Bridge.Handler.{
  TelegramInboundMessage, Handler, message_key, is_seen, hash_of, dispatch, by_class, accept,
  handle, handle_all,
}

-- The messages of the class `seed`.
abbrev is_seed : Classification → Bool
is_seed seed = true
is_seed _ = false

abbrev cost : Classification → ℕ
cost c = if is_seed c then 1 else 0

abbrev pub count_seeds : List (TelegramInboundMessage × Clock) → ℕ
count_seeds [] = 0
count_seeds ((m, clock) ∷ rest) = cost (classify_telegram_text m.text) + count_seeds rest

module _ (σ : Settings) where
  dispatch-IsTidy :
      (c : Classification) (m : TelegramInboundMessage) (clock : Clock) (h : Handler)
      → IsTidy h.matcher
      → IsTidy (dispatch σ c m clock h).1.matcher
  unfolding dispatch
  dispatch-IsTidy seed m clock h tidy =
      ingest_telegram_seed-IsTidy σ m.text (show_int m.message_id) (show_int m.channel_id)
        m.grouped_id m.message_id clock h.matcher tidy
  dispatch-IsTidy details m clock h tidy =
      ingest_telegram_details-IsTidy σ m.text (show_int m.message_id) m.grouped_id m.reply_to_msg_id
        clock h.matcher tidy
  dispatch-IsTidy empty m clock h tidy = tidy
  dispatch-IsTidy non_ascii m clock h tidy = tidy
  dispatch-IsTidy unrecognized m clock h tidy = tidy

  dispatch-budget :
      (c : Classification) (m : TelegramInboundMessage) (clock : Clock) (h : Handler)
      → IsTidy h.matcher
      → budget (dispatch σ c m clock h).1.matcher ≤ cost c + budget h.matcher
  unfolding dispatch
  dispatch-budget seed m clock h tidy = omega (
    arith,
    seed-budget σ m.text (show_int m.message_id) (show_int m.channel_id) m.grouped_id m.message_id
        clock h.matcher,
  )
  dispatch-budget details m clock h tidy = omega (
    arith,
    details-budget σ m.text (show_int m.message_id) m.grouped_id m.reply_to_msg_id clock h.matcher
        tidy,
  )
  dispatch-budget empty m clock h tidy = omega arith
  dispatch-budget non_ascii m clock h tidy = omega arith
  dispatch-budget unrecognized m clock h tidy = omega arith

  abbrev Keeps : Classification → Handler → Handler → Type 0
  Keeps c h h' = IsTidy h'.matcher × (budget h'.matcher ≤ cost c + budget h.matcher)

  accept-Keeps :
      (c : Classification) (m : TelegramInboundMessage) (clock : Clock) (h : Handler)
      → IsTidy h.matcher
      → Keeps c h (accept σ c m clock h).1
  unfolding accept
  accept-Keeps c m clock h tidy = elim (Bool-cases (is_seen (hash_of σ m) h.seen_raw_hashes)) [
    | inl old ↦ rw old (tidy, omega arith)
    | inr new ↦ rw new (dispatch-IsTidy c m clock _ tidy, dispatch-budget c m clock _ tidy)
  ]

  by_class-Keeps :
      (c : Classification) (m : TelegramInboundMessage) (clock : Clock) (h : Handler)
      → IsTidy h.matcher
      → Keeps c h (by_class σ c m clock h).1
  unfolding by_class
  by_class-Keeps empty m clock h tidy = (tidy, omega arith)
  by_class-Keeps non_ascii m clock h tidy = (tidy, omega arith)
  by_class-Keeps seed m clock h tidy = accept-Keeps seed m clock h tidy
  by_class-Keeps details m clock h tidy = accept-Keeps details m clock h tidy
  by_class-Keeps unrecognized m clock h tidy = accept-Keeps unrecognized m clock h tidy

  handle-Keeps :
      (m : TelegramInboundMessage) (clock : Clock) (h : Handler)
      → IsTidy h.matcher
      → Keeps (classify_telegram_text m.text) h (handle σ m clock h).1
  unfolding handle
  handle-Keeps m clock h tidy = elim (Bool-cases (is_seen (message_key m) h.seen_message_keys)) [
    | inl old ↦ rw old (tidy, omega arith)
    | inr new ↦ rw new (by_class-Keeps (classify_telegram_text m.text) m clock h tidy)
  ]

  handle_all-Keeps :
      (ms : List (TelegramInboundMessage × Clock)) (h : Handler)
      → IsTidy h.matcher
      → let h' = handle_all σ ms h in
        IsTidy h'.matcher × (budget h'.matcher ≤ count_seeds ms + budget h.matcher)
  unfolding handle_all
  handle_all-Keeps [] h tidy = (tidy, omega arith)
  handle_all-Keeps ((m, clock) ∷ ms) h tidy =
      let k = handle-Keeps m clock h tidy in
      let r = handle_all-Keeps ms (handle σ m clock h).1 k.0 in (r.0, omega (arith, k.1, r.1))

  -- If every entry of the dictionary of grouped seeds is the pending seed under its own group,
  -- this is so after any stream of messages, each accepted, refused or failed.
  pub handle_all-IsTidy :
      (ms : List (TelegramInboundMessage × Clock)) (h : Handler)
      → IsTidy h.matcher
      → IsTidy (handle_all σ ms h).matcher
  handle_all-IsTidy ms h tidy = (handle_all-Keeps ms h tidy).0

  -- From a matcher whose dictionary holds at most its pending seed, any stream of messages leaves
  -- at most as many recorded publications as there were, plus one for a seed that waits, plus the
  -- number of seed messages in the stream.
  pub known-le-count_seeds :
      (ms : List (TelegramInboundMessage × Clock)) (h : Handler)
      → IsTidy h.matcher
      → length (known (handle_all σ ms h).matcher.outlet) ≤ count_seeds ms + budget h.matcher
  known-le-count_seeds ms h tidy = let k = (handle_all-Keeps ms h tidy).1 in omega (arith, k)
