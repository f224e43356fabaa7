-- ===== src/Bridge/Patterns.antt =====
-- The regular expressions of fasttrack_file_bridge.py, each as the function that its match
-- computes. They run on ASCII text only, behind `validate_ascii`. In each of them a repetition is
-- followed by a character outside its class, so that the greedy match is the only one.
use basket_recovery_ea.Base.{
  ℕ, Bool, true, false, not, ◌&&◌, ◌||◌, Option, none, some, [], ◌∷◌, ◌++◌, ◌==◌, if◌then◌else◌,
  take,
}
use basket_recovery_ea.Base.Text.{Text, codes, is_space, is_digit, is_word, lower_char, skip_spaces}

infixl 5 ◌>>=◌
abbrev ◌>>=◌ {ℓ κ} : {A : Type ℓ} {B : Type κ} → Option A → (A → Option B) → Option B
some a >>= f = f a
none >>= f = none

-- `\S+`: the longest run without whitespace, and the rest.
abbrev prepend : ℕ → Text × Text → Text × Text
prepend c (word, rest) = (c ∷ word, rest)

unfoldable pub take_word : Text → Text × Text
unfolding is_space
take_word [] = ([], [])
take_word (c ∷ t) = let rest = take_word t in if is_space c then ([], c ∷ t) else prepend c rest

abbrev non_empty : Text × Text → Option (Text × Text)
non_empty ([], rest) = none
non_empty (c ∷ word, rest) = some (c ∷ word, rest)

-- `\s+`: the rest behind a run of at least one whitespace character.
unfoldable pub after_spaces : Text → Option Text
unfolding is_space skip_spaces
after_spaces [] = none
after_spaces (c ∷ t) = if is_space c then some (skip_spaces t) else none

-- A literal under `re.IGNORECASE`, given in small letters.
unfoldable pub after_word : Text → Text → Option Text
after_word [] t = some t
after_word (p ∷ ps) [] = none
after_word (p ∷ ps) (c ∷ t) = if p == lower_char c then after_word ps t else none

abbrev pub buy : Text
buy = codes "buy"

abbrev pub sell : Text
sell = codes "sell"

abbrev pub now_word : Text
now_word = codes "now"

-- `(?P<direction>buy|sell)`: the group as it is written, and the rest.
unfoldable pub match_direction : Text → Option (Text × Text)
unfolding after_word
match_direction t = elim (after_word buy t) [
  | some rest ↦ some (take 3 t, rest)
  | none ↦ elim (after_word sell t) [ some rest ↦ some (take 4 t, rest) | none ↦ none ]
]

pub record Match : Type 0 where
  pub symbol : Text
  pub direction : Text
  pub rest : Text

-- `^(?P<symbol>\S+)\s+(?P<direction>buy|sell)\s+now`, with the text behind it.
unfoldable pub match_prefix : Text → Option Match
unfolding take_word after_spaces match_direction
match_prefix t = do
  (symbol, rest₁) ← non_empty (take_word t)
  rest₂ ← after_spaces rest₁
  (direction, rest₃) ← match_direction rest₂
  rest₄ ← after_spaces rest₃
  rest₅ ← after_word now_word rest₄
  some (record { symbol = symbol; direction = direction; rest = rest₅ })

-- `$`: the end, or a line feed at the end.
abbrev at_end : Text → Bool
at_end [] = true
at_end (c ∷ []) = c == 10
at_end (c ∷ d ∷ t) = false

-- `\b` behind a word character.
abbrev at_boundary : Text → Bool
at_boundary [] = true
at_boundary (c ∷ t) = not (is_word c)

-- `SEED_PATTERN.match`
unfoldable pub match_seed : Text → Option Match
unfolding match_prefix
match_seed t = do m ← match_prefix t; if at_end m.rest then some m else none

-- `DETAILS_HEADER_PATTERN.match`
unfoldable pub match_details_header : Text → Option Match
unfolding match_prefix
match_details_header t = do m ← match_prefix t; if at_boundary m.rest then some m else none

abbrev starts_with_digit : Text → Bool
starts_with_digit [] = false
starts_with_digit (c ∷ t) = is_digit c

-- `now\s+`, the head of the two patterns that search for a price.
after_now : Text → Option Text
unfolding after_word after_spaces
after_now t = do rest ← after_word now_word t; after_spaces rest

-- `DETAILS_RANGE_HINT.search`
unfoldable pub has_range_hint : Text → Bool
unfolding after_now
has_range_hint [] = false
has_range_hint (c ∷ t) = elim (after_now (c ∷ t)) [
  | some rest ↦ starts_with_digit rest || has_range_hint t
  | none ↦ has_range_hint t
]

take_digits : Text → Text × Text
take_digits [] = ([], [])
take_digits (c ∷ t) = let rest = take_digits t in if is_digit c then prepend c rest else ([], c ∷ t)

-- `(?:\.\d+)?` behind the digits `whole`.
take_fraction : Text → Text → Text × Text
unfolding take_digits
take_fraction whole [] = (whole, [])
take_fraction whole (c ∷ t) =
    if c == b'.' && starts_with_digit t
    then (let (digits, rest) = take_digits t in (whole ++ c ∷ digits, rest))
    else (whole, c ∷ t)

-- `\d+(?:\.\d+)?`
take_number : Text → Option (Text × Text)
unfolding take_digits take_fraction
take_number t = do (whole, rest) ← non_empty (take_digits t); some (take_fraction whole rest)

abbrev after_dash : Text → Option Text
after_dash [] = none
after_dash (c ∷ t) = if c == b'-' then some t else none

-- `(?P<low>…)\s*-\s*(?P<high>…)`
match_range : Text → Option (Text × Text)
unfolding take_number skip_spaces
match_range t = do
  (low, rest₁) ← take_number t
  rest₂ ← after_dash (skip_spaces rest₁)
  (high, rest₃) ← take_number (skip_spaces rest₂)
  some (low, high)

-- `DETAILS_ENTRY_RANGE_PATTERN.search`: the groups of the leftmost match.
unfoldable pub find_entry_range : Text → Option (Text × Text)
unfolding after_now match_range
find_entry_range [] = none
find_entry_range (c ∷ t) = elim (after_now (c ∷ t) >>= match_range) [
  | some range ↦ some range
  | none ↦ find_entry_range t
]

-- `.+` on one stripped line.
abbrev some_text : Text → Option Text
some_text [] = none
some_text (c ∷ t) = some (c ∷ t)

-- `SL_LINE_PATTERN.match` and `TP_LINE_PATTERN.match` at a line without whitespace at its ends.
unfoldable pub match_labelled : Text → Text → Option Text
unfolding after_word skip_spaces
match_labelled label line = do rest ← after_word label line; some_text (skip_spaces rest)

abbrev pub sl_label : Text
sl_label = codes "sl:"

abbrev pub tp_label : Text
tp_label = codes "tp:"
