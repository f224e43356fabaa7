-- ===== src/Bridge/Publish/Effect.antt =====
-- What `publish_pair` does, by how it ends.
use basket_recovery_ea.Base.{
  ◌≤◌, ◌⊎◌, Bool, suc, length, true, false, ◌≡◌, none, some, List, ◌∷◌, arith,
}
use basket_recovery_ea.Base.Text.{Text, text_eq, text_eq_refl}
use basket_recovery_ea.Bridge.Errors.{Error, ok, encode_error}
use basket_recovery_ea.Bridge.Action.{Reply, returned, raised}
use basket_recovery_ea.Bridge.Validation.{Payload, validate_basename, validate_pair_payload}
use basket_recovery_ea.Bridge.Files.{final}
use basket_recovery_ea.Bridge.Publisher.Complete.{publish_files_complete}
use basket_recovery_ea.Bridge.Publish.{
  PublishResult, dedup_skipped, Outlet, Env, Setup, written, is_published, publish_pair,
  publish_pair_logged,
}

is_published-cons :
    (fingerprint : Text) (known : List Text) → is_published fingerprint (fingerprint ∷ known) ≡ true
unfolding is_published
is_published-cons fingerprint known = rw (text_eq_refl fingerprint)

abbrev pub known : Outlet → List Text
known o = o.publisher.published_fingerprints

module _ (env : Env) (setup : Setup) (seed details key : Text) where
  abbrev call : Outlet → Reply PublishResult × Outlet
  call = publish_pair env setup seed details key

  pub raised-known : (o o' : Outlet) (e : Error) → call o ≡ (raised e, o') → known o' ≡ known o
  unfolding publish_pair
  raised-known o o' e h = ground arith

  -- A call that returns has its fingerprint recorded.
  pub returned-known :
      (o o' : Outlet) (r : PublishResult)
      → call o ≡ (returned r, o')
      → is_published r.fingerprint (known o') ≡ true
  unfolding publish_pair
  returned-known o o' r h = ground (arith, is_published-cons r.fingerprint (known o))

  -- A dry run of publish_pair, however it ends, leaves the directory as it was.
  pub dry_run-world : (o : Outlet) → setup.dry_run ≡ true → (call o).1.world ≡ o.world
  unfolding publish_pair
  dry_run-world o h = ground arith

  -- When a call of publish_pair that is no dry run, with two valid and different names and a valid
  -- payload, returns a fingerprint that was not recorded before, the two files hold exactly the
  -- validated seed and details.
  pub returned-files :
      (o o' : Outlet) (r : PublishResult) (s d : Text) (p : Payload)
      → setup.dry_run ≡ false
      → validate_basename setup.seed_filename ≡ ok s
      → validate_basename setup.details_filename ≡ ok d
      → validate_pair_payload seed details ≡ ok p
      → text_eq s d ≡ false
      → is_published r.fingerprint (known o) ≡ false
      → call o ≡ (returned r, o')
      → (o'.world.files (final s) ≡ some p.seed) × (o'.world.files (final d) ≡ some p.details)
  unfolding publish_pair
  returned-files o o' r s d p dry es ed ep apart new h =
      ground (arith, publish_files_complete env.escapes s d p.seed p.details o.world o'.world apart)

  -- Once publish_pair has returned, the same call with any key, at any later outlet with the same
  -- publisher, returns the same result with that key and no metadata, and changes nothing but the
  -- log.
  pub call_again :
      (o o' o'' : Outlet) (r : PublishResult) (key' : Text)
      → call o ≡ (returned r, o')
      → o''.publisher ≡ o'.publisher
      → publish_pair env setup seed details key' o'' ≡ (
        returned (record r { correlation_key = key'; signal_meta = none }),
        written (dedup_skipped key' r.fingerprint) o'',
      )
  unfolding publish_pair
  call_again o o' o'' r key' h e = ground (arith, is_published-cons r.fingerprint (known o))

  -- No call records more than one fingerprint.
  pub length-known : (o : Outlet) → length (known (call o).1) ≤ suc (length (known o))
  unfolding publish_pair
  length-known o = ground arith

  -- What a call that raises has done to the records and to the files `s` and `d`: nothing to the
  -- records, or a log that could not be written has stopped a complete publication.
  abbrev pub NothingOrUnlogged : Bool → Text → Text → Payload → Outlet → Outlet → Error → Type 0
  NothingOrUnlogged is_loggable s d p o o' e =
      (known o' ≡ known o)
      ⊎ ((is_loggable ≡ false)
          × (e ≡ encode_error)
          × (length (known o') ≡ suc (length (known o)))
          × (o'.world.files (final s) ≡ some p.seed)
          × (o'.world.files (final d) ≡ some p.details))

  -- When the two names are valid and different and the payload is valid, a call of publish_pair
  -- that raises leaves the recorded fingerprints as they were; or the log could not take a line
  -- with the two names, the error is that of the log, one more fingerprint is recorded and the two
  -- files hold exactly the validated seed and details.
  pub raised-NothingOrUnlogged :
      (is_loggable : Bool) (o o' : Outlet) (e : Error) (s d : Text) (p : Payload)
      → validate_basename setup.seed_filename ≡ ok s
      → validate_basename setup.details_filename ≡ ok d
      → validate_pair_payload seed details ≡ ok p
      → text_eq s d ≡ false
      → publish_pair_logged env is_loggable setup seed details key o ≡ (raised e, o')
      → NothingOrUnlogged is_loggable s d p o o' e
  unfolding publish_pair_logged
  raised-NothingOrUnlogged b o o' e s d p es ed ep apart h =
      ground (arith, publish_files_complete env.escapes s d p.seed p.details o.world o'.world apart)
