-- ===== src/Bridge/Publisher/Coherence.antt =====
-- What a reader of the directory can see while a pair is published.
use basket_recovery_ea.Base.{ℕ, List, Bool, false, ◌≡◌, ◌⊎◌, none, some, arith, All}
use basket_recovery_ea.Base.Text.{Text, text_eq, text_eq_refl, text_eq-swap}
use basket_recovery_ea.Bridge.Files.{Outcome, directory, FilePath, final, Files, path_eq}
use basket_recovery_ea.Bridge.Publisher.{begin, try_publish}

-- No seed is there, or the old pair is, or the new one.
abbrev pub Coherent : (s d : Text) → Files → Text → Text → Files → Type 0
Coherent s d old seed details fs =
    (fs (final s) ≡ none)
    ⊎ ((fs (final s) ≡ old (final s)) × (fs (final d) ≡ old (final d)))
    ⊎ ((fs (final s) ≡ some seed) × (fs (final d) ≡ some details))

module _ (escapes : FilePath → Bool) (s d : Text) (seed details : Text) (fs : Files)
    (outcomes : List Outcome) (n : ℕ) where
  -- In every state of the directory that another process can see from the start of a publication
  -- to its end or its first failure, there is no seed file, or the two files are the old ones, or
  -- they are the new seed and the new details: a new seed is never seen with old details.
  pub try_publish-Coherent :
      text_eq s d ≡ false
      → All
          (Coherent s d fs seed details)
          (try_publish escapes s d seed details (begin (directory fs outcomes n))).1.world.seen
  unfolding try_publish path_eq
  try_publish-Coherent apart =
      ground (arith, text_eq_refl d, text_eq_refl s, text_eq-swap s d apart)
