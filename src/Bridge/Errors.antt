-- ===== src/Bridge/Errors.antt =====
-- The exceptions of fasttrack_file_bridge.py as values, and the chain of fallible steps.
use basket_recovery_ea.Base.{ℕ, Bool, true, false}

-- What a validation message speaks of.
pub data Label : Type 0 where
  seed_label details_label : Label

-- `BridgeValidationError`, by its message.
pub data Reason : Type 0 where
  filename_empty : Reason
  filename_forbidden : ℕ → Reason
  filename_parent : Reason
  path_escapes_root : Reason
  not_ascii must_not_be_empty too_large : Label → Reason
  seed_format unsupported_symbol : Reason
  text_not_string : Reason
  event_type : Reason

-- `OverflowError` and `ValueError` of `int` at an infinity or a NaN, `OSError`, and the
-- `UnicodeEncodeError` of the log file.
pub data Error : Type 0 where
  validation : Reason → Error
  overflow_error value_error : Error
  os_error encode_error : Error

pub data Result {ℓ} (V : Type ℓ) : Type ℓ where
  err : Error → Result V
  ok : V → Result V

-- `if bad: raise BridgeValidationError(...)`
abbrev pub reject_if : Bool → Reason → Result (Unit {0})
reject_if false reason = ok tt
reject_if true reason = err (validation reason)

-- A step that raises ends the chain.
abbrev pub ◌>>=◌ {κ ℓ} : {V : Type κ} {W : Type ℓ} → Result V → (V → Result W) → Result W
err raised >>= next = err raised
ok value >>= next = next value

abbrev pub ◌>>◌ {ℓ} : {W : Type ℓ} → Result (Unit {0}) → Result W → Result W
first >> next = first >>= λ nothing. next

infixl 5 ◌>>=◌ ◌>>◌
