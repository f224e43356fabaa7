-- ===== src/Bridge/Validation.antt =====
-- The validators of fasttrack_file_bridge.py. Where the source only checks, the model returns `tt`.
use basket_recovery_ea.Base.{
  ℕ, Bool, true, false, not, ◌&&◌, Option, none, some, [], ◌∷◌, ◌==◌, ltb, if◌then◌else◌, length,
  all,
}
use basket_recovery_ea.Base.Text.{Text, codes, is_ascii, strip, lower, contains, text_eq, utf8}
use basket_recovery_ea.Bridge.Errors.{
  Label, seed_label, details_label, Reason, filename_empty, filename_forbidden, filename_parent,
  not_ascii, must_not_be_empty, too_large, seed_format, unsupported_symbol, validation, Result, ok,
  err, ◌>>=◌, ◌>>◌, reject_if,
}
use basket_recovery_ea.Bridge.Patterns.{Match, match_seed, match_details_header}

abbrev pub max_bytes : ℕ
max_bytes = 8192

abbrev pub gold : Text
gold = codes "gold"

abbrev is_empty : Text → Bool
is_empty [] = true
is_empty (c ∷ t) = false

-- `symbol in SUPPORTED_SYMBOLS`
abbrev pub is_supported : Text → Bool
is_supported symbol = text_eq symbol gold

unfoldable pub validate_basename : Text → Result Text
unfolding strip contains
validate_basename name = do
  let trimmed = strip name
  reject_if (is_empty trimmed) filename_empty
  reject_if (contains (b'/' ∷ []) trimmed) (filename_forbidden b'/')
  reject_if (contains (b'\\' ∷ []) trimmed) (filename_forbidden b'\\')
  reject_if (contains (codes "..") trimmed) filename_parent
  reject_if (contains (b':' ∷ []) trimmed) (filename_forbidden b':')
  ok trimmed

unfoldable pub validate_ascii : Text → Label → Result (Unit {0})
validate_ascii text label = reject_if (not (all is_ascii text)) (not_ascii label)

unfoldable pub validate_non_empty : Text → Label → Result Text
unfolding strip
validate_non_empty text label = do
  reject_if (is_empty (strip text)) (must_not_be_empty label)
  ok (strip text)

-- `text.replace("\r\n", "\n").replace("\r", "\n")`
replace_crlf : Text → Text
replace_crlf [] = []
replace_crlf (c ∷ []) = c ∷ []
replace_crlf (c ∷ d ∷ t) =
    let pair = 10 ∷ replace_crlf t in
    let single = c ∷ replace_crlf (d ∷ t) in if c == 13 && d == 10 then pair else single

replace_cr : Text → Text
replace_cr [] = []
replace_cr (c ∷ t) = (if c == 13 then 10 else c) ∷ replace_cr t

unfoldable pub normalize_line_endings : Text → Text
unfolding replace_crlf replace_cr
normalize_line_endings t = replace_cr (replace_crlf t)

abbrev or_reject : Option Match → Reason → Result Match
or_reject none r = err (validation r)
or_reject (some m) r = ok m

unfoldable pub validate_seed_format : Text → Result (Text × Text)
unfolding validate_non_empty validate_ascii strip match_seed lower text_eq
validate_seed_format text = do
  trimmed ← validate_non_empty text seed_label
  let normalized = strip trimmed
  validate_ascii normalized seed_label
  m ← or_reject (match_seed normalized) seed_format
  reject_if (not (is_supported (lower m.symbol))) unsupported_symbol
  ok (lower m.symbol, lower m.direction)

unfoldable pub validate_details_text : Text → Result Text
unfolding normalize_line_endings validate_non_empty validate_ascii
validate_details_text text = do
  let normalized = normalize_line_endings text
  trimmed ← validate_non_empty normalized details_label
  validate_ascii normalized details_label
  ok normalized

unfoldable pub validate_payload_size : Text → Label → Result (Unit {0})
unfolding utf8
validate_payload_size text label = reject_if (ltb max_bytes (length (utf8 text))) (too_large label)

pub record Payload : Type 0 where
  pub seed : Text
  pub details : Text
  pub symbol : Text
  pub direction : Text

unfoldable pub validate_pair_payload : Text → Text → Result Payload
unfolding validate_seed_format validate_details_text validate_non_empty validate_payload_size
validate_pair_payload seed_text details_text = do
  (symbol, direction) ← validate_seed_format seed_text
  details ← validate_details_text details_text
  trimmed ← validate_non_empty seed_text seed_label
  let seed = strip trimmed
  validate_payload_size seed seed_label
  validate_payload_size details details_label
  ok (record { seed = seed; details = details; symbol = symbol; direction = direction })

-- `normalized.split("\n", 1)[0]`
abbrev pub first_line : Text → Text
first_line [] = []
first_line (c ∷ t) = if c == 10 then [] else c ∷ first_line t

abbrev supported_header : Option Match → Option (Text × Text)
supported_header none = none
supported_header (some m) =
    if is_supported (lower m.symbol) then some (lower m.symbol, lower m.direction) else none

unfoldable pub parse_details_header_symbol_direction : Text → Option (Text × Text)
unfolding normalize_line_endings strip match_details_header lower text_eq
parse_details_header_symbol_direction text =
    let normalized = strip (normalize_line_endings text) in
    if is_empty normalized
    then none
    else supported_header (match_details_header (strip (first_line normalized)))
