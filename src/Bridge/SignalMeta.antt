-- ===== src/Bridge/SignalMeta.antt =====
-- `build_signal_meta` of fasttrack_file_bridge.py and the price parser under it.
-- `_finalize_signal_meta` copies the six keys and drops what is `None`: a record with optional
-- fields is its result already.
use basket_recovery_ea.Base.{ℕ, Bool, ◌||◌, Option, none, some, List, [], ◌∷◌, ◌++◌, if◌then◌else◌}
use basket_recovery_ea.Base.Text.{Text, codes, strip, lower, upper, text_eq}
use basket_recovery_ea.Base.Int.{show_nat}
use basket_recovery_ea.Bridge.Errors.{
  validation, overflow_error, value_error, Result, ok, err, ◌>>=◌,
}
use basket_recovery_ea.Bridge.Patterns.{find_entry_range, match_labelled, sl_label, tp_label}
use basket_recovery_ea.Bridge.Validation.{Payload, validate_pair_payload, gold}
use basket_recovery_ea.Bridge.Classify.{stripped_lines}

-- A Python float as the price parser sees it: a value that is at most zero, a finite value above
-- zero with its integer part and whether it is integral, an infinity, or a NaN.
pub data Float : Type 0 where
  at_most_zero : Float
  above_zero : Bool → ℕ → Float
  infinity nan : Float

pub record SignalMeta : Type 0 where
  pub symbol : Option Text
  pub side : Option Text
  pub entry_low : Option ℕ
  pub entry_high : Option ℕ
  pub stop_loss : Option ℕ
  pub take_profits : List Text

abbrev pub empty_meta : SignalMeta
empty_meta = record {
  symbol = none;
  side = none;
  entry_low = none;
  entry_high = none;
  stop_loss = none;
  take_profits = [];
}

-- `int(value)` behind `value <= 0`; a NaN is not at most zero.
pub price_of_float : Float → Result (Option ℕ)
price_of_float at_most_zero = ok none
price_of_float (above_zero integral whole) = if integral then ok (some whole) else ok (some whole)
price_of_float infinity = err overflow_error
price_of_float nan = err value_error

abbrev parsed_price : Option Float → Result (Option ℕ)
parsed_price none = ok none
parsed_price (some value) = price_of_float value

-- `_canonical_symbol`
unfoldable pub canonical_symbol : Text → Option Text
unfolding lower strip text_eq
canonical_symbol symbol_alias =
    if text_eq (lower (strip symbol_alias)) gold then some (codes "XAUUSD") else none

-- `_canonical_side`
unfoldable pub canonical_side : Text → Option Text
unfolding upper strip text_eq
canonical_side direction =
    let normalized = upper (strip direction) in
    if text_eq normalized (codes "BUY") || text_eq normalized (codes "SELL")
    then some normalized
    else none

-- `to_float` is Python's `float` at a text; `none` is its `ValueError`.
module _ (to_float : Text → Option Float) where
  unfoldable pub normalize_price_number : Text → Result (Option ℕ)
  unfolding strip price_of_float
  normalize_price_number token = elim (strip token) [
    | [] ↦ ok none
    | c ∷ t ↦ parsed_price (to_float (c ∷ t))
  ]

  -- The value of a `TP:` line, added to the list unless it is no price.
  take_profit : Text → List Text → Result (List Text)
  unfolding strip lower text_eq normalize_price_number show_nat
  take_profit value found =
      if text_eq (lower (strip value)) (codes "open") then ok (found ++ codes "OPEN" ∷ []) else (do
        parsed ← normalize_price_number (strip value)
        ok (elim parsed [ none ↦ found | some n ↦ found ++ show_nat n ∷ [] ]))

  -- The loop over `lines[1:]`, on the stop loss and the take profits found so far.
  scan_lines : List Text → Option ℕ × List Text → Result (Option ℕ × List Text)
  unfolding match_labelled normalize_price_number take_profit
  scan_lines [] acc = ok acc
  scan_lines (line ∷ lines) (stop_loss, found) = elim (match_labelled sl_label line) [
    | some value ↦ normalize_price_number value >>= λ price. scan_lines lines (price, found)
    | none ↦ elim (match_labelled tp_label line) [
      | some value ↦ take_profit value found >>= λ found'. scan_lines lines (stop_loss, found')
      | none ↦ scan_lines lines (stop_loss, found)
    ]
  ]

  entry_prices : Option (Text × Text) → Result (Option ℕ × Option ℕ)
  unfolding normalize_price_number
  entry_prices none = ok (none, none)
  entry_prices (some (low, high)) = do
    entry_low ← normalize_price_number low
    entry_high ← normalize_price_number high
    ok (entry_low, entry_high)

  meta_of_lines : Option Text → Option Text → List Text → Result SignalMeta
  unfolding entry_prices find_entry_range scan_lines
  meta_of_lines symbol side [] = ok (record empty_meta { symbol = symbol; side = side })
  meta_of_lines symbol side (first ∷ others) = do
    (entry_low, entry_high) ← entry_prices (find_entry_range first)
    (stop_loss, take_profits) ← scan_lines others (none, [])
    ok (record {
      symbol = symbol;
      side = side;
      entry_low = entry_low;
      entry_high = entry_high;
      stop_loss = stop_loss;
      take_profits = take_profits;
    })

  -- `except BridgeValidationError` gives the empty record; any other exception goes on.
  meta_of_payload : Result Payload → Result SignalMeta
  unfolding canonical_symbol canonical_side meta_of_lines stripped_lines
  meta_of_payload (err (validation r)) = ok empty_meta
  meta_of_payload (err overflow_error) = err overflow_error
  meta_of_payload (err e) = err e
  meta_of_payload (ok p) =
      meta_of_lines (canonical_symbol p.symbol) (canonical_side p.direction)
        (stripped_lines p.details)

  unfoldable pub build_signal_meta : Text → Text → Result SignalMeta
  unfolding validate_pair_payload meta_of_payload
  build_signal_meta seed_text details_text =
      meta_of_payload (validate_pair_payload seed_text details_text)
