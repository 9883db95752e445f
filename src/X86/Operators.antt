-- ===== src/X86/Operators.antt =====
-- X86_64IRVisitor.cpp: what the visitor writes for the operators and the copies.
use Prim.Native.String.{◌++◌}
use mathlib.Core.List.{◌++◌ as append}
use caramel.Prelude.{ℕ, String, Bool, true, false, Option, none, some, List, [], ◌∷◌, if◌then◌else◌}
use caramel.Cfg.{has_symbol, is_symbol_param_array}
use caramel.Ir.{FlagToRegType, less, less_or_eq, equal, greater, greater_or_eq, not_eq}
use caramel.X86.{
  Context, line, Lines, ◌>>=◌, data_reg, accumulator, register_10, reg_to_asm, get_fc_reg,
  to_assembly,
}
use caramel.X86.Move.{Writer, write_move, write_cmp, write_add, write_sub, sized}

-- One part of the output after another.
infixr 6 ◌⨾◌
abbrev pub ◌⨾◌ : Lines → Lines → Lines
a ⨾ b = a >>= λ lines. b >>= λ more. some (append lines more)

abbrev pub one : String → List String → Lines
one mnemonic operands = some (line mnemonic operands ∷ [])

-- A line whose single operand, or last one, has yet to be written out.
abbrev pub unary : String → Option String → Lines
unary mnemonic operand = operand >>= λ asm. one mnemonic (asm ∷ [])

abbrev pub binary : Option String → Option String → Option String → Lines
binary mnemonic src dest = mnemonic >>= λ m. src >>= λ s. dest >>= λ d. one m (s ∷ d ∷ [])

unfoldable pub flag_text : FlagToRegType → String
flag_text less = "l"
flag_text less_or_eq = "le"
flag_text equal = "e"
flag_text greater = "g"
flag_text greater_or_eq = "ge"
flag_text not_eq = "ne"

module _ (context : Context) where
  unfoldable pub asm : String → ℕ → Option String
  asm = to_assembly context

  unfoldable pub move : Writer
  move = write_move context

  -- visitAddition
  unfoldable pub visit_addition : String → ℕ → String → String → Lines
  visit_addition name size left right =
      move right size name size
      ⨾ move left size accumulator size
      ⨾ write_add context accumulator size name size

  unfoldable pub visit_subtraction : String → ℕ → String → String → Lines
  visit_subtraction name size left right =
      move left size accumulator size
      ⨾ write_sub context right size accumulator size
      ⨾ move accumulator size name size

  -- The operators that go by the accumulator differ in the mnemonic.
  unfoldable pub by_accumulator : String → String → ℕ → String → String → Lines
  by_accumulator mnemonic name size left right =
      move left size accumulator size
      ⨾ binary (sized context mnemonic size) (asm right size) (asm accumulator size)
      ⨾ move accumulator size name size

  abbrev pub visit_multiplication : String → ℕ → String → String → Lines
  visit_multiplication = by_accumulator "imul"

  abbrev pub visit_bitwise_and : String → ℕ → String → String → Lines
  visit_bitwise_and = by_accumulator "and"

  abbrev pub visit_bitwise_or : String → ℕ → String → String → Lines
  visit_bitwise_or = by_accumulator "or"

  abbrev pub visit_bitwise_xor : String → ℕ → String → String → Lines
  visit_bitwise_xor = by_accumulator "xor"

  unfoldable pub visit_mod : String → ℕ → String → String → Lines
  visit_mod name size left right =
      unary "pushq" (asm data_reg 64)
      ⨾ move left size accumulator size
      ⨾ one "cltd" []
      ⨾ unary "idivl" (asm right size)
      ⨾ move data_reg size name size
      ⨾ unary "popq" (asm data_reg 64)

  unfoldable pub visit_division : String → ℕ → String → String → Lines
  visit_division name size left right =
      move left size accumulator size
      ⨾ one "cltd" []
      ⨾ unary "idivl" (asm right size)
      ⨾ move accumulator size name size

  -- The left operand is shifted where it is.
  unfoldable pub by_shift : String → String → ℕ → String → String → Lines
  by_shift mnemonic name size left right =
      binary (some "movb") (asm right 8) (some "%cl")
      ⨾ binary (sized context mnemonic size) (some "%cl") (asm left size)
      ⨾ move left size name size

  abbrev pub visit_left_shift : String → ℕ → String → String → Lines
  visit_left_shift = by_shift "sal"

  abbrev pub visit_right_shift : String → ℕ → String → String → Lines
  visit_right_shift = by_shift "sar"

  -- The size is 32 whatever the type.
  unfoldable pub visit_flag_to_reg : String → FlagToRegType → String → String → Lines
  visit_flag_to_reg name flag left right =
      write_cmp context right 32 left 32
      ⨾ one ("set" ++ flag_text flag) ("%cl" ∷ [])
      ⨾ binary (some "movzbl") (some "%cl") (asm register_10 32)
      ⨾ move register_10 32 name 32

  -- The destination of a copy is a pointer where it is an array parameter.
  unfoldable pub copy_size : String → ℕ → ℕ
  copy_size destination size =
      if has_symbol context.frames context.function_context destination
      then pointer (is_symbol_param_array context.frames context.function_context destination)
      else size
    where
      pointer : Option Bool → ℕ
      pointer (some true) = 64
      pointer _ = size

  unfoldable pub copy_source : Option ℕ → String → Option String
  copy_source none source = some source
  copy_source (some register) source = get_fc_reg register

  unfoldable pub visit_copy : String → ℕ → Option ℕ → String → Lines
  visit_copy destination size register source =
      let width = copy_size destination size in
      copy_source register source >>= λ src. move src width destination width

  unfoldable pub visit_copy_addr : String → String → Bool → Lines
  visit_copy_addr destination source true =
      binary (some "leaq") (asm source 64) (reg_to_asm accumulator 64)
      ⨾ binary (some "movq") (reg_to_asm accumulator 64) (asm destination 64)
  visit_copy_addr destination source false = move source 64 destination 64
