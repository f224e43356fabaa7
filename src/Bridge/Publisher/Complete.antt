-- ===== src/Bridge/Publisher/Complete.antt =====
-- What a publication that returns has done to the directory, and that an undisturbed one returns.
use basket_recovery_ea.Base.{ℕ, Bool, false, ◌≡◌, some, [], arith}
use basket_recovery_ea.Base.Text.{Text, text_eq, text_eq_refl, text_eq-swap}
use basket_recovery_ea.Bridge.Action.{returned}
use basket_recovery_ea.Bridge.Files.{Files, directory, FilePath, final, World, path_eq}
use basket_recovery_ea.Bridge.Publisher.{begin, try_publish, publish_files}

module _ (escapes : FilePath → Bool) (s d : Text) (seed details : Text) (w w' : World) where
  -- Whatever the directory held and however its operations turned out, a publication that returns,
  -- to two different names, has left exactly the new seed and the new details under these names.
  pub publish_files_complete :
      text_eq s d ≡ false
      → publish_files escapes s d seed details w ≡ (returned tt, w')
      → (w'.files (final s) ≡ some seed) × (w'.files (final d) ≡ some details)
  unfolding publish_files path_eq
  publish_files_complete apart h = ground (arith, text_eq_refl d, text_eq_refl s)

  -- A publication that returns leaves every file whose name is neither of its two names as it was,
  -- apart from names that the code makes for itself.
  pub final-unchanged :
      (n : Text)
      → text_eq s n ≡ false
      → text_eq d n ≡ false
      → publish_files escapes s d seed details w ≡ (returned tt, w')
      → w'.files (final n) ≡ w.files (final n)
  unfolding publish_files path_eq
  final-unchanged n ps pd h = ground (arith, text_eq_refl d, text_eq_refl s)

try_publish-returns :
    (s d : Text) (seed details : Text) (fs : Files) (n : ℕ)
    → text_eq s d ≡ false
    → (try_publish (λ _. false) s d seed details (begin (directory fs [] n))).0 ≡ returned tt
unfolding try_publish path_eq
try_publish-returns s d seed details fs n apart =
    ground (arith, text_eq_refl d, text_eq_refl s, text_eq-swap s d apart)

-- With no failure and no path out of the root, a publication to two different names returns,
-- whatever the directory held.
pub publish_files-returns :
    (s d : Text) (seed details : Text) (fs : Files) (n : ℕ)
    → text_eq s d ≡ false
    → (publish_files (λ _. false) s d seed details (directory fs [] n)).0 ≡ returned tt
unfolding publish_files
publish_files-returns s d seed details fs n apart =
    ground (arith, try_publish-returns s d seed details fs n apart)
