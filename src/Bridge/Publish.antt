-- ===== src/Bridge/Publish.antt =====
-- `AtomicPublisher.publish_pair` of fasttrack_file_bridge.py around the files: validation, the
-- fingerprint, the record of what was published, and the log.
pub mod Effect
use basket_recovery_ea.Base.{
  ℕ, Bool, true, false, not, Option, none, some, List, [], ◌∷◌, ◌++◌, if◌then◌else◌, length, any,
}
use basket_recovery_ea.Base.Text.{Text, text_eq, utf8}
use basket_recovery_ea.Bridge.Errors.{Error, encode_error}
use basket_recovery_ea.Bridge.Fingerprint.{pair_fingerprint}
use basket_recovery_ea.Bridge.Action.{Reply, returned, raised, Action, lift, modify, ◌>>=◌, ◌>>◌}
use basket_recovery_ea.Bridge.Validation.{Payload, validate_basename, validate_pair_payload}
use basket_recovery_ea.Bridge.SignalMeta.{Float, SignalMeta, build_signal_meta}
use basket_recovery_ea.Bridge.Files.{FilePath, final, World}
use basket_recovery_ea.Bridge.Publisher.{assert_within_root, is_rolled_back, publish_files}

-- `PublishResult`
pub record PublishResult : Type 0 where
  pub correlation_key : Text
  pub fingerprint : Text
  pub seed_bytes : ℕ
  pub details_bytes : ℕ
  pub signal_meta : Option SignalMeta

-- The lines of `BridgeLogger.log`, without the mode and the time.
pub data LogEntry : Type 0 where
  dedup_skipped : Text → Text → LogEntry
  publish_ready : Text → Text → Bool → LogEntry
  publish_failed : Text → Text → Error → LogEntry
  pair_expired stale_seed_replaced : Text → LogEntry
  details_without_seed telegram_dedup empty_message : Text → LogEntry
  non_ascii_message unrecognized_message : Text → LogEntry

-- `AtomicPublisher`
pub record Publisher : Type 0 where
  pub published_fingerprints : List Text
  pub last_signal_meta : Option SignalMeta
  pub last_seed_bytes : Option ℕ
  pub last_details_bytes : Option ℕ

-- The publisher with the directory it writes to and the log.
pub record Outlet : Type 0 where
  pub publisher : Publisher
  pub world : World
  pub log : List LogEntry

-- What the code calls and does not implement: `float`, `hashlib.sha256(...).hexdigest()`, the UTC
-- date, and the resolution of paths.
pub record Env : Type 0 where
  pub to_float : Text → Option Float
  pub sha256 : List ℕ → Text
  pub utc_date : Text
  pub escapes : FilePath → Bool

-- The arguments of `publish_pair` that its callers keep.
pub record Setup : Type 0 where
  pub seed_filename : Text
  pub details_filename : Text
  pub dry_run : Bool

abbrev pub written : LogEntry → Outlet → Outlet
written entry o = record o { log = o.log ++ entry ∷ [] }

unfoldable pub is_published : Text → List Text → Bool
is_published fingerprint known = any (text_eq fingerprint) known

module _ (env : Env) where
  open env use {to_float, sha256, escapes}

  abbrev result_of : Text → Text → Payload → Option SignalMeta → PublishResult
  result_of key fingerprint p meta = record {
    correlation_key = key;
    fingerprint = fingerprint;
    seed_bytes = length (utf8 p.seed);
    details_bytes = length (utf8 p.details);
    signal_meta = meta;
  }

  abbrev remember : Text → Outlet → Outlet
  remember fingerprint o = record o {
    publisher = record o.publisher {
      published_fingerprints = fingerprint ∷ o.publisher.published_fingerprints;
    };
  }

  -- `self._last_signal_meta = …` and the two lines below it.
  abbrev note_last : Payload → SignalMeta → Outlet → Outlet
  note_last p meta o = record o {
    publisher = record o.publisher {
      last_signal_meta = some meta;
      last_seed_bytes = some (length (utf8 p.seed));
      last_details_bytes = some (length (utf8 p.details));
    };
  }

  -- Behind the `try`, for the files' reply. `is_rolled_back` says whether the rollback came to its
  -- end; only then its line is written. `is_loggable` says whether a line with the two file names
  -- can be written to the log file, if the logger has one: it prints the line and then fails. At
  -- a success this happens inside the `try`, where nothing is left to be rolled back.
  unfoldable pub conclude :
      Bool
      → Bool
      → Text
      → Text
      → Payload
      → SignalMeta
      → Outlet
      → Reply (Unit {0}) × World
      → Reply PublishResult × Outlet
  conclude is_loggable is_rolled_back key fingerprint p meta o (returned _, w) =
      let o' : Outlet =
        written (publish_ready key fingerprint false)
          (remember fingerprint (record o { world = w })) in
      if is_loggable
      then (returned (result_of key fingerprint p (some meta)), o')
      else (raised encode_error, written (publish_failed key fingerprint encode_error) o')
  conclude is_loggable is_rolled_back key fingerprint p meta o (raised e, w) =
      let o' : Outlet = record o { world = w } in
      if is_rolled_back
      then (
        raised (if is_loggable then e else encode_error),
        written (publish_failed key fingerprint e) o',
      )
      else (raised e, o')

  -- `publish_pair` behind the test for a known fingerprint.
  pub publish_new :
      Bool → Setup → Text → Text → Text → Text → Payload → SignalMeta → Action Outlet PublishResult
  unfolding assert_within_root conclude
  publish_new is_loggable setup seed_name details_name key fingerprint p meta = do
    assert_within_root escapes (final seed_name)
    assert_within_root escapes (final details_name)
    modify (note_last p meta)
    λ o.
        let o' : Outlet = written (publish_ready key fingerprint true) o in
        if not setup.dry_run
        then conclude is_loggable
            (is_rolled_back escapes seed_name details_name p.seed p.details o.world) key fingerprint
            p meta o (publish_files escapes seed_name details_name p.seed p.details o.world)
        else if is_loggable
        then (returned (result_of key fingerprint p (some meta)), remember fingerprint o')
        else (raised encode_error, o')

  -- `publish_pair` with a logger of which `is_loggable` says whether it can write the lines with
  -- the two file names; it can always write the others, which are ASCII.
  unfoldable pub publish_pair_logged :
      Bool → Setup → Text → Text → Text → Action Outlet PublishResult
  unfolding publish_new
  publish_pair_logged is_loggable setup seed_text details_text key = do
    seed_name ← lift (validate_basename setup.seed_filename)
    details_name ← lift (validate_basename setup.details_filename)
    p ← lift (validate_pair_payload seed_text details_text)
    fingerprint ← lift (pair_fingerprint sha256 p.seed p.details)
    meta ← lift (build_signal_meta to_float p.seed p.details)
    λ o.
        if is_published fingerprint o.publisher.published_fingerprints
        then (
          returned (result_of key fingerprint p none),
          written (dedup_skipped key fingerprint) o,
        )
        else publish_new is_loggable setup seed_name details_name key fingerprint p meta o

  -- `publish_pair` with the logger of the route listeners, `BridgeLogger()`: it has no log file, it
  -- only prints, and every line can be written.
  unfoldable pub publish_pair : Setup → Text → Text → Text → Action Outlet PublishResult
  unfolding publish_pair_logged
  publish_pair = publish_pair_logged true
