-- ===== src/Bridge/Publisher/Held.antt =====
-- Stage by stage: a publication over an old pair, with both old files moved away.
use basket_recovery_ea.Base.{
  ℕ, suc, Bool, false, ◌≡◌, ◌≢◌, ◌⊎◌, Option, none, some, List, [], ◌∷◌, arith,
}
use basket_recovery_ea.Base.Text.{Text, text_eq, text_eq_refl, text_eq-swap}
use basket_recovery_ea.Bridge.Errors.{os_error}
use basket_recovery_ea.Bridge.Action.{returned, raised}
use basket_recovery_ea.Bridge.Files.{
  FilePath, final, hold, part, Files, Outcome, done, path_eq, directory, safe_unlink,
}
use basket_recovery_ea.Bridge.Publisher.{
  Trial, begin, on_disk, discard, hold_both, put_details, put_seed, take_back_seed,
  take_back_details, drop_rest, roll_back,
}

-- No path leads out of the root.
abbrev pub nothing : FilePath → Bool
nothing _ = false

-- The staging file of a trial, if any, has a staging name.
abbrev pub Staged : Text → Option FilePath → Type 0
Staged name o = (o ≡ none) ⊎ ((k : ℕ) × (o ≡ some (part name k)))

module _ (s d : Text) (old_seed old_details : Text) (n : ℕ) (apart : text_eq s d ≡ false) where
  -- Both old files are kept under their hold names, the new seed is not in place, and the
  -- operations to come turn out as `os`.
  pub record Held (u : Trial) (os : List Outcome) : Type 0 where
    pub seed_kept : u.world.files (hold s n) ≡ some old_seed
    pub details_kept : u.world.files (hold d (suc n)) ≡ some old_details
    pub seed_hold : u.seed_hold ≡ some (hold s n)
    pub details_hold : u.details_hold ≡ some (hold d (suc n))
    pub created : u.seed_final_created ≡ false
    pub details_staged : Staged d u.details_staging
    pub seed_staged : Staged s u.seed_staging
    pub left : u.world.schedule ≡ os

  pub hold_both-Held :
      (fs : Files) (os : List Outcome)
      → fs (final s) ≡ some old_seed
      → fs (final d) ≡ some old_details
      → let (r, u) = hold_both nothing s d (begin (directory fs (done ∷ done ∷ os) n)) in
        (r ≡ returned tt) × Held u os
  unfolding hold_both path_eq
  hold_both-Held fs os hs hd =
      ground (arith, text_eq_refl d, text_eq_refl s, text_eq-swap s d apart)

  pub put_details-Held :
      (details : Text) (t : Trial) (os : List Outcome)
      → Held t (done ∷ done ∷ os)
      → let (r, u) = put_details nothing s d details t in
        (r ≡ returned tt) × Held u os × (u.world.files (final d) ≡ some details)
  unfolding put_details path_eq
  put_details-Held details t os h =
      ground (arith, text_eq_refl d, text_eq_refl s, text_eq-swap s d apart)

  -- The write fails, or the move into place does.
  pub put_details-fails :
      (details : Text) (t : Trial) (o : Outcome)
      → o ≢ done
      → Held t (o ∷ [])
      → let (r, u) = put_details nothing s d details t in (r ≡ raised os_error) × Held u []
  unfolding put_details path_eq
  put_details-fails details t o ne h =
      ground (arith, text_eq_refl d, text_eq_refl s, text_eq-swap s d apart)

  pub put_details-fails_late :
      (details : Text) (t : Trial) (o : Outcome)
      → o ≢ done
      → Held t (done ∷ o ∷ [])
      → let (r, u) = put_details nothing s d details t in (r ≡ raised os_error) × Held u []
  unfolding put_details path_eq
  put_details-fails_late details t o ne h =
      ground (arith, text_eq_refl d, text_eq_refl s, text_eq-swap s d apart)

  pub put_seed-fails :
      (seed : Text) (t : Trial) (o : Outcome)
      → o ≢ done
      → Held t (o ∷ [])
      → let (r, u) = put_seed nothing s d seed t in (r ≡ raised os_error) × Held u []
  unfolding put_seed path_eq
  put_seed-fails seed t o ne h =
      ground (arith, text_eq_refl d, text_eq_refl s, text_eq-swap s d apart)

  pub put_seed-fails_late :
      (seed : Text) (t : Trial) (o : Outcome)
      → o ≢ done
      → Held t (done ∷ o ∷ [])
      → let (r, u) = put_seed nothing s d seed t in (r ≡ raised os_error) × Held u []
  unfolding put_seed path_eq
  put_seed-fails_late seed t o ne h =
      ground (arith, text_eq_refl d, text_eq_refl s, text_eq-swap s d apart)

  discard_details-Held :
      (t : Trial)
      → Held t []
      → let (r, u) = on_disk (discard t.details_staging) t in (r ≡ returned tt) × Held u []
  unfolding safe_unlink path_eq
  discard_details-Held t h = ground arith

  discard_seed-Held :
      (t : Trial)
      → Held t []
      → let (r, u) = on_disk (discard t.seed_staging) t in (r ≡ returned tt) × Held u []
  unfolding safe_unlink path_eq
  discard_seed-Held t h = ground arith

  -- The seed is back, and the old details are still held.
  record SeedBack (u : Trial) : Type 0 where
    seed_back : u.world.files (final s) ≡ some old_seed
    seed_hold : u.seed_hold ≡ none
    details_kept : u.world.files (hold d (suc n)) ≡ some old_details
    details_hold : u.details_hold ≡ some (hold d (suc n))
    left : u.world.schedule ≡ []

  take_back_seed-SeedBack :
      (t : Trial)
      → Held t []
      → let (r, u) = take_back_seed nothing s d t in (r ≡ returned tt) × SeedBack u
  unfolding take_back_seed path_eq
  take_back_seed-SeedBack t h =
      ground (arith, text_eq_refl d, text_eq_refl s, text_eq-swap s d apart)

  -- The old pair stands again, and nothing is held.
  pub record Restored (u : Trial) : Type 0 where
    pub seed_back : u.world.files (final s) ≡ some old_seed
    pub details_back : u.world.files (final d) ≡ some old_details
    pub seed_hold : u.seed_hold ≡ none
    pub details_hold : u.details_hold ≡ none

  take_back_details-Restored :
      (t : Trial)
      → SeedBack t
      → let (r, u) = take_back_details nothing s d t in (r ≡ returned tt) × Restored u
  unfolding take_back_details path_eq
  take_back_details-Restored t h =
      ground (arith, text_eq_refl d, text_eq_refl s, text_eq-swap s d apart)

  drop_rest-Restored :
      (t : Trial)
      → Restored t
      → let (r, u) = drop_rest nothing s d t in (r ≡ returned tt) × Restored u
  unfolding drop_rest
  drop_rest-Restored t h = ground arith

  pub roll_back-Restored :
      (t : Trial)
      → Held t []
      → let (r, u) = roll_back nothing s d t in (r ≡ returned tt) × Restored u
  unfolding roll_back
  roll_back-Restored t h =
      let t₁ = (on_disk (discard t.details_staging) t).1 in
      let t₂ = (on_disk (discard t.seed_staging) t₁).1 in
      let t₃ = (take_back_seed nothing s d t₂).1 in
      let t₄ = (take_back_details nothing s d t₃).1 in
      let h₁ = discard_details-Held t h in
      let h₂ = discard_seed-Held t₁ h₁.1 in
      let h₃ = take_back_seed-SeedBack t₂ h₂.1 in
      let h₄ = take_back_details-Restored t₃ h₃.1 in
      ground (arith, h₁.0, h₂.0, h₃.0, h₄.0, drop_rest-Restored t₄ h₄.1)
