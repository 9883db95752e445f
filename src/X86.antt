-- ===== src/X86.antt =====
-- src/ir/x86_64/X86_64IRVisitor.cpp: the text of operands and registers. A visitor appends lines
-- of assembly to a stream; here it returns them. A line is its mnemonic and its operands, each the
-- text that the source writes; layout and `#` comments are left out.
pub mod Move
mod Plain
pub mod Operators
pub mod Visit
pub mod Fuel
pub mod Moves
pub mod Encodable
mod Tests
use Prim.Native.Char.{Char, code}
use Prim.Native.String.{◌++◌}
use caramel.Prelude.{
  ℕ, zero, suc, ◌==◌, leb, String, str_eq, Bool, true, false, ◌&&◌, ◌||◌, not, Option, none, some,
  List, [], ◌∷◌, lookup, to_string, if◌then◌else◌,
}
use caramel.Prelude.Int.{ℤ, pos, negsuc}
use caramel.Cfg.{Frames, get_symbol_index}

-- What a visitor reads of the block of an instruction: the symbols of the graph, the number of the
-- function, and the label of the function's last block (`getFunctionEndBasicBlock`), if it is known.
pub record Context : Type 0 where
  pub frames : Frames
  pub function_context : ℕ
  pub end_label : Option String

pub data Line : Type 0 where
  line : String → List String → Line

-- Lines that were written; `none` is `exit` or an exception.
abbrev pub Lines : Type 0
Lines = Option (List Line)

infixl 5 ◌>>=◌
abbrev pub ◌>>=◌ : {A B : Type 0} → Option A → (A → Option B) → Option B
some a >>= f = f a
none >>= f = none

-- IR::COUNTER_REG and the other names of registers.
module _ where
  abbrev pub counter_reg : String
  counter_reg = "%rcx"

  abbrev pub data_reg : String
  data_reg = "%rdx"

  abbrev pub base_reg : String
  base_reg = "%rbx"

  abbrev pub source_reg : String
  source_reg = "%rsi"

  abbrev pub dest_reg : String
  dest_reg = "%rdi"

  abbrev pub base_pointer_reg : String
  base_pointer_reg = "%rbp"

  abbrev pub stack_pointer_reg : String
  stack_pointer_reg = "%rsp"

  abbrev pub accumulator : String
  accumulator = "%rax"

  abbrev pub register_8 : String
  register_8 = "%r8"

  abbrev pub register_9 : String
  register_9 = "%r9"

  abbrev pub register_10 : String
  register_10 = "%r10"

  abbrev pub register_11 : String
  register_11 = "%r11"

-- '(' + symbol + ')'
abbrev pub address : String → String
address symbol = "(" ++ (symbol ++ ")")

at_size : ℕ → List (ℕ × String) → Option String
at_size size [] = none
at_size size ((k, name) ∷ rest) = if k == size then some name else at_size size rest

-- The table of `regToAsm`. `ACCUMULATOR_1` and `ACCUMULATOR_2` are the names %r10 and %r11 again.
abbrev registers : List (String × List (ℕ × String))
registers =
    (counter_reg, (8, "%cl") ∷ (16, "%cx") ∷ (32, "%ecx") ∷ (64, "%rcx") ∷ [])
    ∷ (data_reg, (8, "%dl") ∷ (16, "%dx") ∷ (32, "%edx") ∷ (64, "%rdx") ∷ [])
    ∷ (base_reg, (8, "%bl") ∷ (16, "%bx") ∷ (32, "%ebx") ∷ (64, "%rbx") ∷ [])
    ∷ (source_reg, (16, "%si") ∷ (32, "%esi") ∷ (64, "%rsi") ∷ [])
    ∷ (dest_reg, (16, "%di") ∷ (32, "%edi") ∷ (64, "%rdi") ∷ [])
    ∷ (base_pointer_reg, (16, "%bp") ∷ (32, "%ebp") ∷ (64, "%rbp") ∷ [])
    ∷ (stack_pointer_reg, (16, "%sp") ∷ (32, "%esp") ∷ (64, "%rsp") ∷ [])
    ∷ (accumulator, (8, "%al") ∷ (16, "%ax") ∷ (32, "%eax") ∷ (64, "%rax") ∷ [])
    ∷ (register_10, (8, "%r10b") ∷ (16, "%r10w") ∷ (32, "%r10d") ∷ (64, "%r10") ∷ [])
    ∷ (register_11, (8, "%r11b") ∷ (16, "%r11w") ∷ (32, "%r11d") ∷ (64, "%r11") ∷ [])
    ∷ (register_8, (8, "%r8b") ∷ (16, "%r8w") ∷ (32, "%r8d") ∷ (64, "%r8") ∷ [])
    ∷ (register_9, (8, "%r9b") ∷ (16, "%r9w") ∷ (32, "%r9d") ∷ (64, "%r9") ∷ [])
    ∷ []

unfoldable pub reg_to_asm : String → ℕ → Option String
unfolding at_size
reg_to_asm register size = lookup register registers >>= at_size size

-- `none` is the fatal error on any other size.
unfoldable pub get_size_suffix : ℕ → Option String
unfolding at_size
get_size_suffix size = at_size size ((8, "b") ∷ (16, "w") ∷ (32, "l") ∷ (64, "q") ∷ [])

-- The registers of the first six arguments.
unfoldable pub get_fc_reg : ℕ → Option String
unfolding at_size
get_fc_reg index = at_size index (
    (0, dest_reg)
    ∷ (1, source_reg)
    ∷ (2, data_reg)
    ∷ (3, counter_reg)
    ∷ (4, register_8)
    ∷ (5, register_9)
    ∷ [])

-- `std::to_string` of a `long`.
unfoldable pub offset_text : ℤ → String
offset_text (pos n) = to_string n
offset_text (negsuc n) = String.◌∷◌ "-" (to_string (suc n))

-- `s[0]` where s is not empty, and `s.back()`.
starts_by : (ℕ → Bool) → String → Bool
starts_by test String.[] = false
starts_by test (String.◌∷◌ c rest) = test (code c)

last_is : ℕ → String → Bool
last_is k String.[] = false
last_is k (String.◌∷◌ c String.[]) = code c == k
last_is k (String.◌∷◌ c rest) = last_is k rest

is_digit : ℕ → Bool
is_digit c = leb b'0' c && leb c b'9'

unfoldable pub is_register : String → Bool
unfolding starts_by
is_register = starts_by (λ c. c == b'%')

unfoldable pub is_constant : String → Bool
unfolding starts_by is_digit
is_constant = starts_by is_digit

unfoldable pub is_address : String → Bool
unfolding last_is
is_address = last_is b')'

module _ (context : Context) where
  -- A register by its name at that size, a constant with its `$`, an address as it is, and any other
  -- symbol by its offset from the base pointer. The case of temporaries is switched off.
  unfoldable pub to_assembly : String → ℕ → Option String
  unfolding is_register is_constant is_address
  to_assembly symbol size =
      if is_register symbol
      then reg_to_asm symbol size
      else if is_constant symbol
      then some (String.◌∷◌ "$" symbol)
      else if is_address symbol
      then some symbol
      else reg_to_asm base_pointer_reg 64 >>= λ rbp. some (
          offset_text (get_symbol_index context.frames context.function_context symbol)
          ++ address rbp)
