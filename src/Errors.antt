-- ===== src/Errors.antt =====
-- utils/common.go, Error: errors as values.
use freego.Prelude.{ℤ, Text, String, List}

-- One argument of utils.Error: a literal, a text (the message of an error too) or an integer.
pub data Arg : Type 0 where
  lit : String → Arg
  text : Text → Arg
  num : ℤ → Arg

-- An error, as the arguments that utils.Error joins to its message.
abbrev pub Err : Type 0
Err = List Arg

-- What a Go function of type (A, error) returns.
pub data Result {ℓ} (A : Type ℓ) : Type ℓ where
  done : A → Result A
  failed : Err → Result A
