-- ===== src/Bridge/Publisher/Failure.antt =====
-- What a failed publication leaves behind, by the operation that failed; the rollback itself runs
-- undisturbed. Both files of an old pair are there, and no path leads out of the root.
use basket_recovery_ea.Base.{
  ℕ, zero, suc, ◌<◌, false, ◌≡◌, ◌≢◌, none, some, List, [], ◌∷◌, ◌++◌, arith, replicate,
}
use basket_recovery_ea.Base.Text.{Text, text_eq, text_eq_refl, text_eq-swap}
use basket_recovery_ea.Bridge.Errors.{os_error}
use basket_recovery_ea.Bridge.Action.{Reply, raised}
use basket_recovery_ea.Bridge.Files.{
  final, Files, Outcome, done, refused, World, path_eq, directory,
}
use basket_recovery_ea.Bridge.Publisher.{
  Trial, begin, hold_both, put_details, try_publish, publish_files,
}
use basket_recovery_ea.Bridge.Publisher.Held.{
  nothing, Held, hold_both-Held, put_details-Held, put_details-fails, put_details-fails_late,
  put_seed-fails, put_seed-fails_late, roll_back-Restored,
}

module _ (s d : Text) (seed details : Text) (old_seed old_details : Text) (fs : Files) (n : ℕ)
    (apart : text_eq s d ≡ false) (has_seed : fs (final s) ≡ some old_seed)
    (has_details : fs (final d) ≡ some old_details) where
  -- The publication whose operations turn out as `os`.
  abbrev run : List Outcome → Reply (Unit {0}) × World
  run os = publish_files nothing s d seed details (directory fs os n)

  abbrev attempt : List Outcome → Reply (Unit {0}) × Trial
  attempt os = try_publish nothing s d seed details (begin (directory fs os n))

  abbrev held : List Outcome → Trial
  held os = (hold_both nothing s d (begin (directory fs (done ∷ done ∷ os) n))).1

  attempt-fails :
      (k : ℕ) (o : Outcome)
      → k < 4
      → o ≢ done
      → let (r, u) = attempt (done ∷ done ∷ replicate k done ++ o ∷ []) in
        (r ≡ raised os_error) × Held s d old_seed old_details n apart u []
  unfolding try_publish
  attempt-fails zero o lt ne =
      let h₁ = hold_both-Held s d old_seed old_details n apart fs (o ∷ []) has_seed has_details in
      let h₂ =
        put_details-fails s d old_seed old_details n apart details (held (o ∷ [])) o ne h₁.1 in
      ground (arith, h₁.0, h₂)
  attempt-fails (suc zero) o lt ne =
      let h₁ =
        hold_both-Held s d old_seed old_details n apart fs (done ∷ o ∷ []) has_seed has_details in
      let h₂ =
        put_details-fails_late s d old_seed old_details n apart details (held (done ∷ o ∷ [])) o ne
          h₁.1 in
      ground (arith, h₁.0, h₂)
  attempt-fails (suc (suc zero)) o lt ne =
      let os = done ∷ done ∷ o ∷ [] in
      let h₁ = hold_both-Held s d old_seed old_details n apart fs os has_seed has_details in
      let h₂ = put_details-Held s d old_seed old_details n apart details (held os) (o ∷ []) h₁.1 in
      let h₃ =
        put_seed-fails s d old_seed old_details n apart seed
          (put_details nothing s d details (held os)).1 o ne h₂.1 in
      ground (arith, h₁.0, h₂.0, h₃)
  attempt-fails (suc (suc (suc zero))) o lt ne =
      let os = done ∷ done ∷ done ∷ o ∷ [] in
      let h₁ = hold_both-Held s d old_seed old_details n apart fs os has_seed has_details in
      let h₂ =
        put_details-Held s d old_seed old_details n apart details (held os) (done ∷ o ∷ []) h₁.1 in
      let h₃ =
        put_seed-fails_late s d old_seed old_details n apart seed
          (put_details nothing s d details (held os)).1 o ne h₂.1 in
      ground (arith, h₁.0, h₂.0, h₃)
  attempt-fails (suc (suc (suc (suc k)))) o lt ne = absurd (omega arith)

  -- When both old files are there, no path leads out of the root and the rollback runs
  -- undisturbed, a publication that fails at one of the four operations that write and place the
  -- two files raises the error and leaves the old pair under its two names.
  pub publish_files-restores :
      (k : ℕ) (o : Outcome)
      → k < 4
      → o ≢ done
      → let (r, w) = run (done ∷ done ∷ replicate k done ++ o ∷ []) in
        (r ≡ raised os_error)
        × (w.files (final s) ≡ some old_seed)
        × (w.files (final d) ≡ some old_details)
  unfolding publish_files
  publish_files-restores k o lt ne =
      let t = (attempt (done ∷ done ∷ replicate k done ++ o ∷ [])).1 in
      let h = attempt-fails k o lt ne in
      let b = roll_back-Restored s d old_seed old_details n apart t h.1 in ground (arith, h.0, b)

  -- When both old files are there and the first operation, which moves the old seed away, is
  -- refused, the publication raises the error and the rollback, which runs undisturbed, has
  -- deleted the whole old pair.
  pub refused_seed_hold :
      let (r, w) = run (refused ∷ []) in
      (r ≡ raised os_error) × (w.files (final s) ≡ none) × (w.files (final d) ≡ none)
  unfolding publish_files path_eq
  refused_seed_hold =
      ground (arith, text_eq_refl d, text_eq_refl s, text_eq-swap s d apart, has_seed, has_details)

  -- When both old files are there, the old seed is moved away and the move of the old details is
  -- refused, the publication raises the error and the rollback, which runs undisturbed, has put
  -- the old seed back and deleted the old details.
  pub refused_details_hold :
      let (r, w) = run (done ∷ refused ∷ []) in
      (r ≡ raised os_error) × (w.files (final s) ≡ some old_seed) × (w.files (final d) ≡ none)
  unfolding publish_files path_eq
  refused_details_hold =
      ground (arith, text_eq_refl d, text_eq_refl s, text_eq-swap s d apart, has_seed, has_details)
