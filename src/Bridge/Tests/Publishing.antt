-- ===== src/Bridge/Tests/Publishing.antt =====
-- Tests of the publication of pairs.
use basket_recovery_ea.Base.{
  ◌≡◌, ◌≢◌, Bool, true, false, refl, none, some, [], ◌∷◌, ◌++◌, All, arith, replicate,
}
use basket_recovery_ea.Base.Text.{codes, text_eq}
use basket_recovery_ea.Bridge.Errors.{os_error, encode_error}
use basket_recovery_ea.Bridge.Action.{Reply, returned, raised}
use basket_recovery_ea.Bridge.Validation.{Payload, validate_basename, validate_pair_payload}
use basket_recovery_ea.Bridge.Files.{final, done, refused, torn, World, path_eq, directory}
use basket_recovery_ea.Bridge.Publisher.{begin, try_publish, publish_files, is_rolled_back}
use basket_recovery_ea.Bridge.Publisher.Complete.{
  publish_files_complete, publish_files-returns, final-unchanged,
}
use basket_recovery_ea.Bridge.Publisher.Coherence.{Coherent, try_publish-Coherent}
use basket_recovery_ea.Bridge.Publisher.Failure.{
  publish_files-restores, refused_seed_hold, refused_details_hold,
}
use basket_recovery_ea.Bridge.Publisher.Cleanup.{failed_cleanup_mixes}
use basket_recovery_ea.Bridge.Fingerprint.{pair_fingerprint}
use basket_recovery_ea.Bridge.SignalMeta.{build_signal_meta}
use basket_recovery_ea.Bridge.Publish.{
  PublishResult, Outlet, publish_pair, publish_pair_logged, is_published, written, dedup_skipped,
}
use basket_recovery_ea.Bridge.Publish.Effect.{
  returned-files, call_again, raised-NothingOrUnlogged, NothingOrUnlogged, dry_run-world,
}
use basket_recovery_ea.Bridge.Tests.Sample.{
  seed_file, details_file, gold_buy, gold_details, nowhere, old_files, full_directory, sample_env,
  setup_with, outlet_on,
}

abbrev after : World
after = (publish_files nowhere seed_file details_file gold_buy gold_details (full_directory [])).1

publish_files_complete_example :
    (after.files (final seed_file) ≡ some gold_buy)
    × (after.files (final details_file) ≡ some gold_details)
unfolding publish_files path_eq text_eq
publish_files_complete_example =
    publish_files_complete nowhere seed_file details_file gold_buy gold_details (full_directory [])
      after refl refl

final-unchanged_example : after.files (final (codes "other")) ≡ none
unfolding publish_files path_eq text_eq
final-unchanged_example =
    final-unchanged nowhere seed_file details_file gold_buy gold_details (full_directory []) after
      (codes "other") refl refl refl

publish_files-returns_example :
    (publish_files
      (λ _. false)
      seed_file
      details_file
      gold_buy
      gold_details
      (directory old_files [] 0)).0
    ≡ returned tt
unfolding text_eq
publish_files-returns_example =
    publish_files-returns seed_file details_file gold_buy gold_details old_files 0 refl

try_publish-Coherent_example :
    All
      (Coherent seed_file details_file old_files gold_buy gold_details)
      (try_publish nowhere seed_file details_file gold_buy gold_details
        (begin (directory old_files (done ∷ done ∷ done ∷ refused ∷ []) 0))).1.world.seen
unfolding text_eq
try_publish-Coherent_example =
    try_publish-Coherent nowhere seed_file details_file gold_buy gold_details old_files
      (done ∷ done ∷ done ∷ refused ∷ []) 0 refl

torn-not-done : torn 3 ≢ done
torn-not-done e = ground arith

publish_files-restores_example :
    let (r, w) =
      publish_files nowhere seed_file details_file gold_buy gold_details
        (directory old_files (done ∷ done ∷ replicate 2 done ++ torn 3 ∷ []) 0) in
    (r ≡ raised os_error)
    × (w.files (final seed_file) ≡ some (codes "old seed"))
    × (w.files (final details_file) ≡ some (codes "old details"))
unfolding text_eq
publish_files-restores_example =
    publish_files-restores seed_file details_file gold_buy gold_details (codes "old seed")
      (codes "old details") old_files 0 refl refl refl 2 (torn 3) (omega arith) torn-not-done

refused_seed_hold_example :
    let (r, w) =
      publish_files nowhere seed_file details_file gold_buy gold_details
        (directory old_files (refused ∷ []) 0) in
    (r ≡ raised os_error)
    × (w.files (final seed_file) ≡ none)
    × (w.files (final details_file) ≡ none)
unfolding text_eq
refused_seed_hold_example =
    refused_seed_hold seed_file details_file gold_buy gold_details (codes "old seed")
      (codes "old details") old_files 0 refl refl refl

refused_details_hold_example :
    let (r, w) =
      publish_files nowhere seed_file details_file gold_buy gold_details
        (directory old_files (done ∷ refused ∷ []) 0) in
    (r ≡ raised os_error)
    × (w.files (final seed_file) ≡ some (codes "old seed"))
    × (w.files (final details_file) ≡ none)
unfolding text_eq
refused_details_hold_example =
    refused_details_hold seed_file details_file gold_buy gold_details (codes "old seed")
      (codes "old details") old_files 0 refl refl refl

failed_cleanup_mixes_example :
    let (r, w) =
      publish_files nowhere seed_file details_file gold_buy gold_details
        (directory old_files (replicate 6 done ++ replicate 1 done ++ torn 3 ∷ []) 0) in
    (r ≡ raised os_error)
    × (w.files (final seed_file) ≡ some gold_buy)
    × (w.files (final details_file) ≡ some (codes "old details"))
unfolding text_eq
failed_cleanup_mixes_example =
    failed_cleanup_mixes seed_file details_file gold_buy gold_details (codes "old seed")
      (codes "old details") old_files 0 refl refl refl 1 (torn 3) (omega arith) torn-not-done

-- `publish_pair` on the old pair, for a real and for a dry run.
abbrev call_with : Bool → Reply PublishResult × Outlet
call_with dry =
    publish_pair sample_env (setup_with dry) gold_buy gold_details (codes "key")
      (outlet_on (full_directory []))

abbrev sample_payload : Payload
sample_payload = record {
  seed = gold_buy;
  details = gold_details;
  symbol = codes "gold";
  direction = codes "buy";
}

abbrev result_or_default : Reply PublishResult → PublishResult
result_or_default (returned r) = r
result_or_default (raised e) = record {
  correlation_key = [];
  fingerprint = [];
  seed_bytes = 0;
  details_bytes = 0;
  signal_meta = none;
}

returned-files_example :
    ((call_with false).1.world.files (final seed_file) ≡ some gold_buy)
    × ((call_with false).1.world.files (final details_file) ≡ some gold_details)
unfolding publish_pair validate_basename validate_pair_payload pair_fingerprint build_signal_meta
    is_published publish_files text_eq
returned-files_example =
    returned-files sample_env (setup_with false) gold_buy gold_details (codes "key")
      (outlet_on (full_directory [])) (call_with false).1 (result_or_default (call_with false).0)
      seed_file details_file sample_payload refl refl refl refl refl refl refl

call_again_example :
    publish_pair sample_env
      (setup_with false)
      gold_buy
      gold_details
      (codes "late key")
      (call_with false).1
    ≡ (
      returned (record (result_or_default (call_with false).0) {
        correlation_key = codes "late key";
        signal_meta = none;
      }),
      written
          (dedup_skipped (codes "late key") (result_or_default (call_with false).0).fingerprint)
          (call_with false).1,
    )
unfolding publish_pair validate_basename validate_pair_payload pair_fingerprint build_signal_meta
    is_published publish_files
call_again_example =
    call_again sample_env (setup_with false) gold_buy gold_details (codes "key")
      (outlet_on (full_directory [])) (call_with false).1 (call_with false).1
      (result_or_default (call_with false).0) (codes "late key") refl refl

dry_run-world_example : (call_with true).1.world ≡ full_directory []
dry_run-world_example =
    dry_run-world sample_env (setup_with true) gold_buy gold_details (codes "key")
      (outlet_on (full_directory [])) refl

-- The same call with a log file that cannot take the lines.
abbrev unlogged_call : Reply PublishResult × Outlet
unlogged_call =
    publish_pair_logged sample_env false (setup_with false) gold_buy gold_details (codes "key")
      (outlet_on (full_directory []))

raised-NothingOrUnlogged_example :
    NothingOrUnlogged sample_env
      (setup_with false)
      gold_buy
      gold_details
      (codes "key")
      false
      seed_file
      details_file
      sample_payload
      (outlet_on (full_directory []))
      unlogged_call.1
      encode_error
unfolding publish_pair_logged validate_basename validate_pair_payload pair_fingerprint
    build_signal_meta is_published publish_files is_rolled_back text_eq
raised-NothingOrUnlogged_example =
    raised-NothingOrUnlogged sample_env (setup_with false) gold_buy gold_details (codes "key") false
      (outlet_on (full_directory [])) unlogged_call.1 encode_error seed_file details_file
      sample_payload refl refl refl refl refl
