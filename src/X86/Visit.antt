-- ===== src/X86/Visit.antt =====
-- X86_64IRVisitor.cpp: what the visitor writes for arrays, functions, and each instruction.
use Prim.Native.String.{◌++◌}
use caramel.Prelude.{
  ℕ, zero, suc, ◌-◌, ◌*◌, ◌/◌, ltb, ◌==◌, String, Bool, Option, none, some, [], ◌∷◌, to_string,
  if◌then◌else◌,
}
use caramel.Types.{PrimaryType, memory_length}
use caramel.Cfg.{is_symbol_param_array, get_stack_size, StackSize, reserved, missing, negative}
use caramel.Ir.{
  Instruction, Kind, addition, subtraction, multiplication, division, modulo, left_shift,
  right_shift, bitwise_and, bitwise_or, bitwise_xor, flag_to_reg, copy, copy_addr, array_access,
  ld_const, empty, prolog, epilog, nop, void, return_from, break_to, call, call_parameter, push,
  pop,
}
use caramel.X86.{Context, Lines, ◌>>=◌, data_reg, accumulator, address, reg_to_asm, get_fc_reg}
use caramel.X86.Move.{write_add}
use caramel.X86.Operators.{
  ◌⨾◌, one, unary, asm, move, visit_addition, visit_subtraction, visit_multiplication,
  visit_bitwise_and, visit_bitwise_or, visit_bitwise_xor, visit_mod, visit_division,
  visit_left_shift, visit_right_shift, visit_flag_to_reg, visit_copy, visit_copy_addr,
}

-- The sign extension of the index to 64 bits.
unfoldable pub extend_index : ℕ → Lines
extend_index size =
    if ltb size 64
    then (if size == 32 then one "cltq" [] else if size == 16 then one "cwtq" [] else one "cbtq" [])
    else some []

unfoldable pub drop_last : String → String
drop_last String.[] = String.[]
drop_last (String.◌∷◌ c String.[]) = String.[]
drop_last (String.◌∷◌ c rest) = String.◌∷◌ c (drop_last rest)

module _ (context : Context) where
  -- A load of an element at `place` into the destination, or a store of the source there that also
  -- copies it to the destination.
  unfoldable pub transfer : Option String → String → ℕ → String → Lines
  transfer none place size destination = move context place size destination size
  transfer (some source) place size destination =
      move context source size place size ⨾ move context source size destination size

  -- (%rbp,%rax,4) for an array in the frame: the closing parenthesis of its address is dropped and
  -- the index and the size of an element are added.
  unfoldable pub element_text : String → ℕ → String → String
  element_text base size rax =
      drop_last base ++ ("," ++ (rax ++ ("," ++ (to_string (size / 8) ++ ")"))))

  unfoldable pub local_access : String → String → ℕ → Option String → Lines
  local_access name destination size source = asm context name size >>= λ base.
      reg_to_asm accumulator 64 >>= λ rax.
      transfer source (element_text base size rax) size destination

  -- An array parameter holds a pointer; its element's address goes to %rax.
  unfoldable pub remote_access : String → String → ℕ → Option String → Lines
  remote_access name destination size source =
      (reg_to_asm accumulator 64 >>= λ rax. reg_to_asm data_reg 64 >>= λ rdx.
      one "leaq" (("0(," ++ (rax ++ ("," ++ (to_string (size / 8) ++ ")")))) ∷ rdx ∷ []))
      ⨾ move context name 64 accumulator 64
      ⨾ write_add context data_reg 64 accumulator 64
      ⨾ transfer source (address accumulator) size destination
      ⨾ unary "popq" (asm context data_reg 64)

  unfoldable pub visit_array_access :
      String → ℕ → String → PrimaryType → String → Option String → Lines
  visit_array_access destination size index index_type name source =
      unary "pushq" (asm context data_reg 64)
      ⨾ move context index size accumulator size
      ⨾ extend_index (memory_length index_type)
      ⨾ (is_symbol_param_array context.frames context.function_context name >>= λ pointer.
          if pointer
          then remote_access name destination size source
          else local_access name destination size source)

  unfoldable pub reserve : StackSize → Lines
  reserve (reserved size) = one "subq" (String.◌∷◌ "$" (to_string size) ∷ "%rsp" ∷ [])
  reserve missing = none
  reserve negative = none

  unfoldable pub visit_prolog : Lines
  visit_prolog =
      one "pushq" ("%rbp" ∷ [])
      ⨾ one "movq" ("%rsp" ∷ "%rbp" ∷ [])
      ⨾ reserve (get_stack_size context.frames context.function_context)

  unfoldable pub visit_epilog : Lines
  visit_epilog = one "leave" [] ⨾ one "ret" []

  -- The loop that restores the registers of the arguments from the i-th on, `rest` of them.
  unfoldable pub restore_registers : ℕ → ℕ → Lines
  restore_registers i zero = some []
  restore_registers i (suc rest) =
      let more = restore_registers (suc i) rest in
      unary "popq" (get_fc_reg i >>= λ r. reg_to_asm r 64) ⨾ more

  abbrev pub register_arguments : ℕ → ℕ
  register_arguments arguments = if ltb arguments 6 then arguments else 6

  unfoldable pub visit_call : String → ℕ → String → ℕ → Bool → Lines
  unfolding restore_registers
  visit_call name size function arguments variadic =
      (if variadic then move context "0" 64 accumulator 64 else some [])
      ⨾ one "call" (function ∷ [])
      ⨾ (if ltb 0 size then move context accumulator size name size else some [])
      ⨾ restore_registers 0 (register_arguments arguments)
      ⨾ (if ltb 6 arguments
          then one "addq" (String.◌∷◌ "$" (to_string ((arguments - 6) * 8)) ∷ "%rsp" ∷ [])
          else some [])

  unfoldable pub visit_return : String → ℕ → Lines
  visit_return source size =
      (if ltb 0 size then move context source size accumulator size else some [])
      ⨾ unary "jmp" context.end_label

  -- One of the first six arguments goes to its register, which is saved before; any other is pushed.
  unfoldable pub visit_call_parameter : String → ℕ → ℕ → Bool → Lines
  visit_call_parameter value size index is_address =
      let width = if is_address then 64 else size in
      if ltb index 6
      then (get_fc_reg index >>= λ register.
          unary "pushq" (reg_to_asm register 64) ⨾ move context value width register width)
      else unary "pushq" (asm context value 64)

  abbrev pub visit_ld_const : String → String → Lines
  visit_ld_const destination value = move context value 32 destination 32

  abbrev pub visit_push : String → Lines
  visit_push source = unary "pushq" (asm context source 64)

  abbrev pub visit_pop : String → Lines
  visit_pop destination = unary "popq" (asm context destination 64)

  unfoldable pub visit_kind : String → ℕ → Kind → Lines
  visit_kind name size (addition left right) = visit_addition context name size left right
  visit_kind name size (subtraction left right) = visit_subtraction context name size left right
  visit_kind name size (multiplication left right) =
      visit_multiplication context name size left right
  visit_kind name size (division left right) = visit_division context name size left right
  visit_kind name size (modulo left right) = visit_mod context name size left right
  visit_kind name size (left_shift left right) = visit_left_shift context name size left right
  visit_kind name size (right_shift left right) = visit_right_shift context name size left right
  visit_kind name size (bitwise_and left right) = visit_bitwise_and context name size left right
  visit_kind name size (bitwise_or left right) = visit_bitwise_or context name size left right
  visit_kind name size (bitwise_xor left right) = visit_bitwise_xor context name size left right
  visit_kind name size (flag_to_reg flag left right) =
      visit_flag_to_reg context name flag left right
  visit_kind name size (copy register source) = visit_copy context name size register source
  visit_kind name size (copy_addr source local) = visit_copy_addr context name source local
  visit_kind name size (array_access index index_type array source) =
      visit_array_access name size index index_type array source
  visit_kind name size (ld_const value) = visit_ld_const name value
  visit_kind name size empty = some []
  visit_kind name size prolog = visit_prolog
  visit_kind name size epilog = visit_epilog
  visit_kind name size nop = one "nop" []
  visit_kind name size void = some []
  visit_kind name size return_from = visit_return name size
  visit_kind name size (break_to label) = one "jmp" (label ∷ [])
  visit_kind name size (call function arguments variadic) =
      visit_call name size function arguments variadic
  visit_kind name size (call_parameter index is_address) =
      visit_call_parameter name size index is_address
  visit_kind name size (push source) = visit_push source
  visit_kind name size (pop destination) = visit_pop destination

  -- `instruction->accept(visitor, os)`
  unfoldable pub visit : Instruction → Lines
  unfolding visit_kind
  visit i = visit_kind i.return_name (memory_length i.type) i.kind
