-- ===== src/Bridge/Action.antt =====
-- Code that changes a state and may raise: what was changed before a raise stays changed.
use mathlib.Core.Path.{◌≡◌}
use native.Mathlib.Omega.{arith}
use basket_recovery_ea.Bridge.Errors.{Error, Result, ok, err}

pub data Reply (A : Type 0) : Type 0 where
  returned : A → Reply A
  raised : Error → Reply A

abbrev pub Action : Type 0 → Type 0 → Type 0
Action S A = S → Reply A × S

module _ {S : Type 0} where
  abbrev pub pure : {A : Type 0} → A → Action S A
  pure a s = (returned a, s)

  abbrev pub lift : {A : Type 0} → Result A → Action S A
  lift (ok a) s = (returned a, s)
  lift (err e) s = (raised e, s)

  abbrev pub modify : (S → S) → Action S (Unit {0})
  modify f s = (returned tt, f s)

  infixl 5 ◌>>=◌ ◌>>◌
  abbrev pub ◌>>=◌ : {A B : Type 0} → Action S A → (A → Action S B) → Action S B
  ◌>>=◌ m f s = let (r, s') = m s in elim r [ returned a ↦ f a s' | raised e ↦ (raised e, s') ]

  abbrev pub ◌>>◌ : {B : Type 0} → Action S (Unit {0}) → Action S B → Action S B
  m >> k = m >>= λ _. k

-- A step that returns hands its state on; a step that raises ends the run.
module _ {S A B : Type 0} (m : Action S A) (f : A → Action S B) (s : S) where
  pub >>=-returned : {a : A} → (m s).0 ≡ returned a → (m >>= f) s ≡ f a (m s).1
  >>=-returned h = ground arith

  pub >>=-raised : {e : Error} → (m s).0 ≡ raised e → (m >>= f) s ≡ (raised e, (m s).1)
  >>=-raised h = ground arith
