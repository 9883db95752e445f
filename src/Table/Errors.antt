-- ===== src/Table/Errors.antt =====
-- src/exceptions: what the operations of the symbol table throw, as values. `fatal` is a logged
-- message and `exit(1)`.
use caramel.Prelude.{ℕ, String, Option}
use caramel.Types.{PrimaryType}
use caramel.Symbols.{Symbol, SymbolType}

-- The arguments are those of the exceptions' constructors that the table supplies. A mismatch
-- carries `mSymbolMap[name]` of the table that throws: `none` is the null pointer that the
-- operator inserts where that table has no such name, and which the constructor dereferences.
pub data Error : Type 0 where
  undefined_symbol : String → Error
  symbol_already_defined symbol_already_declared : String → Symbol → Error
  symbol_type_mismatch : String → SymbolType → Option Symbol → Error
  type_mismatch : String → PrimaryType → Option Symbol → Error
  type_already_declared : String → Option Symbol → Error
  function_name_already_declared : String → Symbol → Error
  parameter_name_mismatch : String → String → String → Error
  parameter_type_mismatch : String → PrimaryType → PrimaryType → Error
  number_of_parameters_mismatch : String → ℕ → ℕ → Error
  arguments_number_mismatch : String → ℕ → ℕ → Error
  arguments_type_mismatch : String → ℕ → PrimaryType → PrimaryType → Error
  -- `std::runtime_error`
  parameter_already_defined : String → Error
  not_a_parameter : String → Error

pub data Result {ℓ} (A : Type ℓ) : Type ℓ where
  ok : A → Result A
  err : Error → Result A
  fatal : Result A

infixl 5 ◌>>=◌ ◌>>◌
abbrev pub ◌>>=◌ {ℓ κ} : {A : Type ℓ} {B : Type κ} → Result A → (A → Result B) → Result B
ok a >>= f = f a
err e >>= f = err e
fatal >>= f = fatal

abbrev pub ◌>>◌ {ℓ} : {B : Type ℓ} → Result (Unit {0}) → Result B → Result B
m >> k = m >>= λ _. k
