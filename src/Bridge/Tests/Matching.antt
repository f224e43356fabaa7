-- ===== src/Bridge/Tests/Matching.antt =====
-- Tests of the matching of seeds and details, and of the handling of messages.
use basket_recovery_ea.Base.{◌+◌, ◌≤◌, ◌≡◌, refl, none, some, [], length}
use basket_recovery_ea.Base.Int.{pos}
use basket_recovery_ea.Base.Text.{codes, text_eq}
use basket_recovery_ea.Bridge.Classify.{classify_telegram_text}
use basket_recovery_ea.Bridge.Publish.Effect.{known}
use basket_recovery_ea.Bridge.Matcher.{keep_if, find_seed_for_details, ingest_telegram_details}
use basket_recovery_ea.Bridge.Matcher.Tidy.{IsTidy}
use basket_recovery_ea.Bridge.Matcher.Pairing.{budget}
use basket_recovery_ea.Bridge.Matcher.Choice.{goes_with, find_seed_for_details_lem, late_details}
use basket_recovery_ea.Bridge.Handler.{handle, handle_all, is_seen}
use basket_recovery_ea.Base.{◌++◌, ◌∷◌, arith}
use basket_recovery_ea.Base.Text.{strip}
use basket_recovery_ea.Bridge.Validation.{normalize_line_endings}
use basket_recovery_ea.Bridge.Handler.Once.{OnlyLogs, handle_again, same_text_again}
use basket_recovery_ea.Bridge.Handler.Run.{count_seeds, handle_all-IsTidy, known-le-count_seeds}
use basket_recovery_ea.Bridge.Tests.Sample.{
  gold_buy, gold_details, sample_settings, new_handler, clock_at, message, stream, waiting_seed,
  waiting_matcher,
}

waiting-IsTidy : IsTidy waiting_matcher
waiting-IsTidy = ((refl, refl), tt)

handle_all-IsTidy_example : IsTidy (handle_all sample_settings stream new_handler).matcher
handle_all-IsTidy_example = handle_all-IsTidy sample_settings stream new_handler tt

known-le-count_seeds_example :
    length (known (handle_all sample_settings stream new_handler).matcher.outlet)
    ≤ count_seeds stream + budget new_handler.matcher
known-le-count_seeds_example = known-le-count_seeds sample_settings stream new_handler tt

handle_again_example :
    OnlyLogs sample_settings
      (message 1 gold_buy none)
      (clock_at 9)
      (handle sample_settings (message 1 gold_buy none) (clock_at 5) new_handler).1
handle_again_example =
    handle_again sample_settings (message 1 gold_buy none) (clock_at 5) new_handler (clock_at 9)

-- A later message of the same text, with a line feed behind it.
same_text_again_example :
    OnlyLogs sample_settings
      (message 8 (gold_buy ++ 10 ∷ []) none)
      (clock_at 9)
      (handle sample_settings (message 1 gold_buy none) (clock_at 5) new_handler).1
unfolding is_seen classify_telegram_text text_eq strip normalize_line_endings
same_text_again_example =
    same_text_again sample_settings (message 1 gold_buy none) (clock_at 5) new_handler
      (message 8 (gold_buy ++ 10 ∷ []) none) (clock_at 9) refl (λ h. ground (arith, h))
      (λ h. ground (arith, h)) refl

find_seed_for_details_lem_example :
    find_seed_for_details sample_settings gold_details (some (pos 5)) none waiting_matcher
    ≡ keep_if sample_settings
        (goes_with sample_settings gold_details (some (pos 5)) none waiting_matcher)
        waiting_matcher.pending_seed
find_seed_for_details_lem_example =
    find_seed_for_details_lem sample_settings gold_details (some (pos 5)) none waiting_matcher
      waiting-IsTidy

late_details_example :
    let u =
      (ingest_telegram_details sample_settings gold_details
        (codes "2")
        none
        none
        (clock_at 60000000001)
        waiting_matcher).1 in
    (u.outlet.world ≡ waiting_matcher.outlet.world)
    × (u.outlet.publisher ≡ waiting_matcher.outlet.publisher)
    × (u.pending_seed ≡ none)
    × (u.seed_by_grouped_id ≡ [])
late_details_example =
    late_details sample_settings gold_details (codes "2") none none (clock_at 60000000001)
      waiting_matcher waiting_seed waiting-IsTidy refl refl
