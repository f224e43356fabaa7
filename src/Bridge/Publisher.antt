-- ===== src/Bridge/Publisher.antt =====
-- `AtomicPublisher` of fasttrack_file_bridge.py: the pair of files is written under other names,
-- moved into place details first, and taken back if a step fails.
pub mod Complete
pub mod Coherence
pub mod Held
pub mod Failure
pub mod Cleanup
use basket_recovery_ea.Base.{Bool, true, false, not, ◌&&◌, Option, none, some, if◌then◌else◌}
use basket_recovery_ea.Base.Text.{Text}
use basket_recovery_ea.Bridge.Errors.{path_escapes_root, Error, validation}
use basket_recovery_ea.Bridge.Action.{Reply, returned, raised, Action, modify, ◌>>=◌, ◌>>◌}
use basket_recovery_ea.Bridge.Files.{
  FilePath, final, World, Io, exists, replace, write_full_file, safe_unlink, move_to_hold, new_part,
}

-- The locals of the `try` block of `publish_pair`, over the directory.
pub record Trial : Type 0 where
  pub world : World
  pub seed_hold : Option FilePath
  pub details_hold : Option FilePath
  pub details_staging : Option FilePath
  pub seed_staging : Option FilePath
  pub seed_final_created : Bool

abbrev pub begin : World → Trial
begin w = record {
  world = w;
  seed_hold = none;
  details_hold = none;
  details_staging = none;
  seed_staging = none;
  seed_final_created = false;
}

-- An operation on the directory leaves the locals alone.
abbrev pub on_disk : {A : Type 0} → Io A → Action Trial A
on_disk m t = let (r, w) = m t.world in (r, record t { world = w })

abbrev pub discard : Option FilePath → Io (Unit {0})
discard none w = (returned tt, w)
discard (some path) w = safe_unlink path w

-- `escapes` says of a path whether it resolves to a place outside the root (`assert_within_root`).
module _ (escapes : FilePath → Bool) where
  unfoldable pub assert_within_root : {S : Type 0} → FilePath → Action S (Unit {0})
  assert_within_root path s =
      (if escapes path then raised (validation path_escapes_root) else returned tt, s)

module _ (escapes : FilePath → Bool) (seed_name details_name : Text) where
  pub hold_both : Action Trial (Unit {0})
  unfolding move_to_hold
  hold_both = do
    seed_hold ← on_disk (move_to_hold seed_name)
    modify (λ t. record t { seed_hold = seed_hold })
    details_hold ← on_disk (move_to_hold details_name)
    modify (λ t. record t { details_hold = details_hold })

  pub put_details : Text → Action Trial (Unit {0})
  unfolding assert_within_root write_full_file replace
  put_details details = do
    staging ← on_disk (new_part details_name)
    modify (λ t. record t { details_staging = some staging })
    assert_within_root escapes staging
    on_disk (write_full_file staging details)
    on_disk (replace staging (final details_name))
    modify (λ t. record t { details_staging = none })

  pub put_seed : Text → Action Trial (Unit {0})
  unfolding assert_within_root write_full_file replace
  put_seed seed = do
    staging ← on_disk (new_part seed_name)
    modify (λ t. record t { seed_staging = some staging })
    assert_within_root escapes staging
    on_disk (write_full_file staging seed)
    on_disk (replace staging (final seed_name))
    modify (λ t. record t { seed_staging = none; seed_final_created = true })

  pub drop_holds : Action Trial (Unit {0})
  unfolding safe_unlink
  drop_holds t =
      (do
        on_disk (discard t.seed_hold)
        modify (λ t'. record t' { seed_hold = none })
        on_disk (discard t.details_hold)
        modify (λ t'. record t' { details_hold = none }))
        t

  -- The body of the `try`, up to the bookkeeping.
  unfoldable pub try_publish : Text → Text → Action Trial (Unit {0})
  unfolding hold_both put_details put_seed drop_holds
  try_publish seed details = do hold_both; put_details details; put_seed seed; drop_holds

  held_exists : Option FilePath → World → Bool
  held_exists none w = false
  held_exists (some path) w = exists path w

  restore : Option FilePath → Text → Io (Unit {0})
  unfolding replace
  restore none name w = (returned tt, w)
  restore (some path) name w = replace path (final name) w

  put_back_seed : Action Trial (Unit {0})
  unfolding held_exists restore
  put_back_seed t =
      if held_exists t.seed_hold t.world
      then (do on_disk (restore t.seed_hold seed_name); modify (λ u. record u { seed_hold = none }))
          t
      else (returned tt, t)

  -- `if not seed_final_created`
  pub take_back_seed : Action Trial (Unit {0})
  unfolding safe_unlink put_back_seed
  take_back_seed t =
      if t.seed_final_created
      then (returned tt, t)
      else (do on_disk (safe_unlink (final seed_name)); put_back_seed) t

  pub take_back_details : Action Trial (Unit {0})
  unfolding safe_unlink held_exists restore
  take_back_details t =
      if held_exists t.details_hold t.world
      then (do
        on_disk (safe_unlink (final details_name))
        on_disk (restore t.details_hold details_name)
        modify (λ v. record v { details_hold = none }))
          t
      else if exists (final details_name) t.world && not t.seed_final_created
      then on_disk (safe_unlink (final details_name)) t
      else (returned tt, t)

  pub drop_rest : Action Trial (Unit {0})
  unfolding safe_unlink
  drop_rest t = (do on_disk (discard t.seed_hold); on_disk (discard t.details_hold)) t

  -- The `except Exception` block, up to the log line.
  unfoldable pub roll_back : Action Trial (Unit {0})
  unfolding safe_unlink take_back_seed take_back_details drop_rest
  roll_back t =
      (do
        on_disk (discard t.details_staging)
        on_disk (discard t.seed_staging)
        take_back_seed
        take_back_details
        drop_rest)
        t

  -- The reply of the whole `try` statement: a raise of the rollback replaces the first one.
  abbrev again : Error → Reply (Unit {0}) → Reply (Unit {0})
  again e (returned _) = raised e
  again e (raised e') = raised e'

  finish : Reply (Unit {0}) × Trial → Reply (Unit {0}) × World
  unfolding roll_back
  finish (returned _, t) = (returned tt, t.world)
  finish (raised e, t) = let (r, t') = roll_back t in (again e r, t'.world)

  -- Whether the rollback, if it was run, came to its end.
  abbrev is_settled : Reply (Unit {0}) → Bool
  is_settled (returned _) = true
  is_settled (raised _) = false

  settled_of : Reply (Unit {0}) × Trial → Bool
  unfolding roll_back
  settled_of (returned _, t) = true
  settled_of (raised e, t) = is_settled (roll_back t).0

  unfoldable pub is_rolled_back : Text → Text → World → Bool
  unfolding try_publish settled_of
  is_rolled_back seed details w = settled_of (try_publish seed details (begin w))

  unfoldable pub publish_files : Text → Text → Io (Unit {0})
  unfolding try_publish finish
  publish_files seed details w = finish (try_publish seed details (begin w))
