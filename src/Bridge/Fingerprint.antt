-- ===== src/Bridge/Fingerprint.antt =====
-- `pair_fingerprint`, `raw_message_hash`, `short_fingerprint` and `build_correlation_key` of
-- fasttrack_file_bridge.py. `sha256` stands for `hashlib.sha256(...).hexdigest()`.
use basket_recovery_ea.Base.{ℕ, List, [], ◌∷◌, ◌++◌, take}
use basket_recovery_ea.Base.Text.{Text, codes, utf8, strip}
use basket_recovery_ea.Bridge.Errors.{seed_label, Result, ok, ◌>>=◌}
use basket_recovery_ea.Bridge.Validation.{
  validate_non_empty, validate_details_text, normalize_line_endings,
}

-- `f"{seed}\n---\n{details}"`
abbrev pub pair_text : Text → Text → Text
pair_text seed details = seed ++ codes "\n---\n" ++ details

module _ (sha256 : List ℕ → Text) where
  unfoldable pub pair_fingerprint : Text → Text → Result Text
  unfolding validate_non_empty validate_details_text utf8 strip
  pair_fingerprint seed_text details_text = do
    trimmed ← validate_non_empty seed_text seed_label
    details ← validate_details_text details_text
    ok (sha256 (utf8 (pair_text (strip trimmed) details)))

  unfoldable pub raw_message_hash : Text → Text
  unfolding normalize_line_endings strip utf8
  raw_message_hash text = sha256 (utf8 (strip (normalize_line_endings text)))

abbrev pub short_fingerprint : Text → Text
short_fingerprint = take 12

-- `build_correlation_key`, at the UTC date.
unfoldable pub build_correlation_key : Text → Text → Text → Text → Text → Text
build_correlation_key utc_date symbol direction seed_message_id [] =
    symbol ++ b'|' ∷ direction ++ b'|' ∷ utc_date ++ b'|' ∷ seed_message_id
build_correlation_key utc_date symbol direction seed_message_id (c ∷ channel_id) =
    symbol
    ++ b'|' ∷ direction
    ++ b'|' ∷ utc_date
    ++ b'|' ∷ (c ∷ channel_id)
    ++ b'|' ∷ seed_message_id
