-- ===== src/Bridge/Publisher/Cleanup.antt =====
-- A failure after both new files are in place, while the held old files are deleted.
use basket_recovery_ea.Base.{
  ℕ, zero, suc, ◌<◌, ◌≡◌, ◌≢◌, none, some, List, [], ◌∷◌, ◌++◌, ◌⊎◌, true, false, arith, replicate,
}
use basket_recovery_ea.Base.Text.{Text, text_eq, text_eq_refl, text_eq-swap}
use basket_recovery_ea.Bridge.Errors.{os_error}
use basket_recovery_ea.Bridge.Action.{Reply, returned, raised}
use basket_recovery_ea.Bridge.Files.{final, hold, Files, Outcome, done, path_eq, directory}
use basket_recovery_ea.Bridge.Publisher.{
  Trial, begin, hold_both, put_details, put_seed, drop_holds, try_publish, roll_back, publish_files,
}
use basket_recovery_ea.Bridge.Publisher.Held.{nothing, Held, hold_both-Held, put_details-Held}

module _ (s d : Text) (seed : Text) (old_seed old_details : Text) (n : ℕ)
    (apart : text_eq s d ≡ false) where
  -- The new seed is in place, and the old details are still held.
  record Placed (u : Trial) (os : List Outcome) : Type 0 where
    placed : u.world.files (final s) ≡ some seed
    details_kept : u.world.files (hold d (suc n)) ≡ some old_details
    details_hold : u.details_hold ≡ some (hold d (suc n))
    seed_hold : (u.seed_hold ≡ none) ⊎ (u.seed_hold ≡ some (hold s n))
    created : u.seed_final_created ≡ true
    details_staging : u.details_staging ≡ none
    seed_staging : u.seed_staging ≡ none
    left : u.world.schedule ≡ os

  put_seed-Placed :
      (t : Trial) (os : List Outcome)
      → Held s d old_seed old_details n apart t (done ∷ done ∷ os)
      → t.details_staging ≡ none
      → let (r, u) = put_seed nothing s d seed t in
        (r ≡ returned tt)
        × Placed u os
        × (u.world.files (hold s n) ≡ some old_seed)
        × (u.seed_hold ≡ some (hold s n))
  unfolding put_seed path_eq
  put_seed-Placed t os h e = ground (arith, text_eq_refl d, text_eq_refl s, text_eq-swap s d apart)

  drop_holds-fails :
      (t : Trial) (o : Outcome)
      → o ≢ done
      → Placed t (o ∷ [])
      → t.world.files (hold s n) ≡ some old_seed
      → t.seed_hold ≡ some (hold s n)
      → let (r, u) = drop_holds nothing s d t in (r ≡ raised os_error) × Placed u []
  unfolding drop_holds path_eq
  drop_holds-fails t o ne h k e =
      ground (arith, text_eq_refl d, text_eq_refl s, text_eq-swap s d apart)

  drop_holds-fails_late :
      (t : Trial) (o : Outcome)
      → o ≢ done
      → Placed t (done ∷ o ∷ [])
      → t.world.files (hold s n) ≡ some old_seed
      → t.seed_hold ≡ some (hold s n)
      → let (r, u) = drop_holds nothing s d t in (r ≡ raised os_error) × Placed u []
  unfolding drop_holds path_eq
  drop_holds-fails_late t o ne h k e =
      ground (arith, text_eq_refl d, text_eq_refl s, text_eq-swap s d apart)

  roll_back-mixes :
      (t : Trial)
      → Placed t []
      → let (r, u) = roll_back nothing s d t in
        (r ≡ returned tt)
        × (u.world.files (final s) ≡ some seed)
        × (u.world.files (final d) ≡ some old_details)
  unfolding roll_back path_eq
  roll_back-mixes t h = ground (arith, text_eq_refl d, text_eq_refl s, text_eq-swap s d apart)

put_details-unstaged :
    (s d details : Text) (t : Trial) (os : List Outcome)
    → t.world.schedule ≡ done ∷ done ∷ os
    → (put_details nothing s d details t).1.details_staging ≡ none
unfolding put_details path_eq
put_details-unstaged s d details t os h = ground (arith, h, text_eq_refl d)

module _ (s d : Text) (seed details : Text) (old_seed old_details : Text) (fs : Files) (n : ℕ)
    (apart : text_eq s d ≡ false) (has_seed : fs (final s) ≡ some old_seed)
    (has_details : fs (final d) ≡ some old_details) where
  abbrev attempt : List Outcome → Reply (Unit {0}) × Trial
  attempt os = try_publish nothing s d seed details (begin (directory fs os n))

  attempt-fails :
      (k : ℕ) (o : Outcome)
      → k < 2
      → o ≢ done
      → let (r, u) = attempt (replicate 6 done ++ replicate k done ++ o ∷ []) in
        (r ≡ raised os_error) × Placed s d seed old_seed old_details n apart u []
  unfolding try_publish
  attempt-fails zero o lt ne =
      let os = o ∷ [] in
      let t₁ = (hold_both nothing s d (begin (directory fs (replicate 6 done ++ os) n))).1 in
      let t₂ = (put_details nothing s d details t₁).1 in
      let t₃ = (put_seed nothing s d seed t₂).1 in
      let h₁ =
        hold_both-Held s d old_seed old_details n apart fs (replicate 4 done ++ os) has_seed
          has_details in
      let h₂ =
        put_details-Held s d old_seed old_details n apart details t₁ (done ∷ done ∷ os) h₁.1 in
      let e = put_details-unstaged s d details t₁ (done ∷ done ∷ os) h₁.1.left in
      let h₃ = put_seed-Placed s d seed old_seed old_details n apart t₂ os h₂.1 e in
      let h₄ = drop_holds-fails s d seed old_seed old_details n apart t₃ o ne h₃.1 h₃.2 h₃.3 in
      ground (arith, h₁.0, h₂.0, h₃.0, h₄)
  attempt-fails (suc zero) o lt ne =
      let os = done ∷ o ∷ [] in
      let t₁ = (hold_both nothing s d (begin (directory fs (replicate 6 done ++ os) n))).1 in
      let t₂ = (put_details nothing s d details t₁).1 in
      let t₃ = (put_seed nothing s d seed t₂).1 in
      let h₁ =
        hold_both-Held s d old_seed old_details n apart fs (replicate 4 done ++ os) has_seed
          has_details in
      let h₂ =
        put_details-Held s d old_seed old_details n apart details t₁ (done ∷ done ∷ os) h₁.1 in
      let e = put_details-unstaged s d details t₁ (done ∷ done ∷ os) h₁.1.left in
      let h₃ = put_seed-Placed s d seed old_seed old_details n apart t₂ os h₂.1 e in
      let h₄ = drop_holds-fails_late s d seed old_seed old_details n apart t₃ o ne h₃.1 h₃.2 h₃.3 in
      ground (arith, h₁.0, h₂.0, h₃.0, h₄)
  attempt-fails (suc (suc k)) o lt ne = absurd (omega arith)

  -- When both old files are there and, with both new files in place, the deletion of one of the
  -- two held old files fails, the publication raises the error and the rollback, which runs
  -- undisturbed, leaves the new seed beside the old details.
  pub failed_cleanup_mixes :
      (k : ℕ) (o : Outcome)
      → k < 2
      → o ≢ done
      → let (r, w) =
          publish_files nothing s d seed details
            (directory fs (replicate 6 done ++ replicate k done ++ o ∷ []) n) in
        (r ≡ raised os_error)
        × (w.files (final s) ≡ some seed)
        × (w.files (final d) ≡ some old_details)
  unfolding publish_files
  failed_cleanup_mixes k o lt ne =
      let t = (attempt (replicate 6 done ++ replicate k done ++ o ∷ [])).1 in
      let h = attempt-fails k o lt ne in
      let b = roll_back-mixes s d seed old_seed old_details n apart t h.1 in ground (arith, h.0, b)
