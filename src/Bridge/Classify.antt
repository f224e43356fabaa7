-- ===== src/Bridge/Classify.antt =====
-- `classify_telegram_text` of fasttrack_file_bridge.py.
use basket_recovery_ea.Base.{
  Bool, true, false, not, ◌&&◌, ◌||◌, List, [], ◌∷◌, if◌then◌else◌, all, is_some, map, select,
}
use basket_recovery_ea.Base.Text.{Text, codes, is_ascii, strip, upper, contains, split_lines}
use basket_recovery_ea.Bridge.Patterns.{match_seed, match_details_header, has_range_hint}
use basket_recovery_ea.Bridge.Validation.{normalize_line_endings}

pub data Classification : Type 0 where
  empty non_ascii seed details unrecognized : Classification

abbrev not_empty : Text → Bool
not_empty [] = false
not_empty (c ∷ t) = true

-- `[line.strip() for line in text.split("\n") if line.strip()]`
unfoldable pub stripped_lines : Text → List Text
unfolding strip split_lines
stripped_lines t = select not_empty (map strip (split_lines t))

-- `"SL:" in normalized.upper()`
unfoldable pub mentions_stop_loss : Text → Bool
unfolding contains upper
mentions_stop_loss t = contains (codes "SL:") (upper t)

abbrev is_nil : List Text → Bool
is_nil [] = true
is_nil (l ∷ ls) = false

classify_lines : Text → List Text → Classification
unfolding match_seed match_details_header has_range_hint mentions_stop_loss
classify_lines normalized [] = empty
classify_lines normalized (first ∷ others) =
    if is_nil others && is_some (match_seed first)
    then seed
    else if is_some (match_details_header first)
        && (has_range_hint first || mentions_stop_loss normalized)
    then details
    else if mentions_stop_loss normalized && is_some (match_details_header first)
    then details
    else unrecognized

unfoldable pub classify_telegram_text : Text → Classification
unfolding normalize_line_endings strip stripped_lines classify_lines
classify_telegram_text text =
    let normalized = strip (normalize_line_endings text) in
    if not (not_empty normalized)
    then empty
    else if not (all is_ascii normalized)
    then non_ascii
    else classify_lines normalized (stripped_lines normalized)
