-- ===== src/X86/Encodable/Kinds.antt =====
-- X86_64IRVisitor.cpp: no visit writes an instruction with two operands in memory.
use Prim.Native.String.{◌++◌}
use mathlib.Core.Option.{some-injective}
use caramel.Prelude.{
  subst, ℕ, zero, suc, ◌==◌, ltb, ◌-◌, ◌*◌, ◌≡◌, refl, String, Bool, true, false, Option, none,
  some, List, [], ◌∷◌, arith, to_string, if◌then◌else◌,
}
use caramel.Types.{PrimaryType, memory_length}
use caramel.Cfg.{is_symbol_param_array, StackSize, reserved, missing, negative}
use caramel.Ir.{
  Instruction, FlagToRegType, Kind, addition, subtraction, multiplication, division, modulo,
  left_shift, right_shift, bitwise_and, bitwise_or, bitwise_xor, flag_to_reg, copy, copy_addr,
  array_access, ld_const, empty, prolog, epilog, nop, void, return_from, break_to, call,
  call_parameter, push, pop,
}
use caramel.X86.{
  Context, Line, line, Lines, ◌>>=◌, accumulator, register_10, data_reg, reg_to_asm, get_fc_reg,
  is_register,
}
use caramel.X86.Move.{is_memory, sized}
use caramel.X86.Plain.{reg_to_asm-plain, to_assembly-plain}
use caramel.X86.Operators.{
  one, binary, asm, move, visit_addition, visit_subtraction, by_accumulator, visit_mod,
  visit_division, by_shift, visit_flag_to_reg, visit_copy, visit_copy_addr, copy_source, flag_text,
}
use caramel.X86.Visit.{
  visit, visit_kind, visit_call, visit_call_parameter, visit_return, visit_prolog, visit_epilog,
  visit_array_access, reserve, restore_registers, local_access, remote_access, transfer,
  extend_index, register_arguments,
}
use caramel.X86.Encodable.{
  encodable, AreEncodable, Encodes-lines, Encodes, Encodes-none, Encodes-some, Encodes-⨾,
  Encodes-unary, Encodes-binary, write_move-Encodes, write_add-Encodes, write_sub-Encodes,
  write_cmp-Encodes,
}

Encodes->>= :
    {A : Type 0} (m : Option A) (f : A → Lines) → ((a : A) → Encodes (f a)) → Encodes (m >>= f)
Encodes->>= none f h = Encodes-none
Encodes->>= (some a) f h = h a

pub Encodes-one :
    (mnemonic : String) (operands : List String)
    → encodable (line mnemonic operands) ≡ true
    → Encodes (one mnemonic operands)
Encodes-one mnemonic operands h = Encodes-some (h, tt)

pub Encodes-if : (b : Bool) (x y : Lines) → Encodes x → Encodes y → Encodes (if b then x else y)
Encodes-if true x y p q = p
Encodes-if false x y p q = q

module _ (context : Context) where
  move-Encodes :
      (src : String) (src_size : ℕ) (dest : String) (dest_size : ℕ)
      → Encodes (move context src src_size dest dest_size)
  unfolding move
  move-Encodes = write_move-Encodes context

  pub from_plain :
      (mnemonic src dest : Option String)
      → ((s : String) → src ≡ some s → is_memory s ≡ false)
      → Encodes (binary mnemonic src dest)
  from_plain mnemonic src dest h = Encodes-binary mnemonic src dest (λ s d p q. rw (h s p) refl)

  to_plain :
      (mnemonic src dest : Option String)
      → ((d : String) → dest ≡ some d → is_memory d ≡ false)
      → Encodes (binary mnemonic src dest)
  to_plain mnemonic src dest h =
      Encodes-binary mnemonic src dest (λ s d p q. let plain = h d q in ground arith)

  accumulator-plain :
      (size : ℕ) (d : String) → asm context accumulator size ≡ some d → is_memory d ≡ false
  unfolding asm is_register
  accumulator-plain size d = to_assembly-plain context accumulator size refl

  counter-plain : (s : String) → some "%cl" ≡ some s → is_memory s ≡ false
  unfolding is_memory
  counter-plain s h =
      let same : "%cl" ≡ s = some-injective _ _ h in subst (λ x. is_memory x ≡ false) same refl

  visit_addition-Encodes :
      (name : String) (size : ℕ) (left right : String)
      → Encodes (visit_addition context name size left right)
  unfolding visit_addition
  visit_addition-Encodes name size left right =
      Encodes-⨾ _ _ (move-Encodes _ _ _ _)
        (Encodes-⨾ _ _ (move-Encodes _ _ _ _) (write_add-Encodes context _ _ _ _))

  visit_subtraction-Encodes :
      (name : String) (size : ℕ) (left right : String)
      → Encodes (visit_subtraction context name size left right)
  unfolding visit_subtraction
  visit_subtraction-Encodes name size left right =
      Encodes-⨾ _ _ (move-Encodes _ _ _ _)
        (Encodes-⨾ _ _ (write_sub-Encodes context _ _ _ _) (move-Encodes _ _ _ _))

  by_accumulator-Encodes :
      (mnemonic name : String) (size : ℕ) (left right : String)
      → Encodes (by_accumulator context mnemonic name size left right)
  unfolding by_accumulator
  by_accumulator-Encodes mnemonic name size left right =
      Encodes-⨾ _ _ (move-Encodes _ _ _ _)
        (Encodes-⨾ _ _ (to_plain _ _ _ (accumulator-plain size)) (move-Encodes _ _ _ _))

  visit_mod-Encodes :
      (name : String) (size : ℕ) (left right : String)
      → Encodes (visit_mod context name size left right)
  unfolding visit_mod
  visit_mod-Encodes name size left right = Encodes-⨾ _ _ (Encodes-unary _ _) (
      Encodes-⨾ _ _ (move-Encodes _ _ _ _) (
        Encodes-⨾ _ _ (Encodes-one "cltd" [] refl) (
          Encodes-⨾ _ _ (Encodes-unary _ _)
            (Encodes-⨾ _ _ (move-Encodes _ _ _ _) (Encodes-unary _ _)))))

  visit_division-Encodes :
      (name : String) (size : ℕ) (left right : String)
      → Encodes (visit_division context name size left right)
  unfolding visit_division
  visit_division-Encodes name size left right = Encodes-⨾ _ _ (move-Encodes _ _ _ _) (
      Encodes-⨾ _ _ (Encodes-one "cltd" [] refl)
        (Encodes-⨾ _ _ (Encodes-unary _ _) (move-Encodes _ _ _ _)))

  by_shift-Encodes :
      (mnemonic name : String) (size : ℕ) (left right : String)
      → Encodes (by_shift context mnemonic name size left right)
  unfolding by_shift
  by_shift-Encodes mnemonic name size left right =
      Encodes-⨾ _ _ (to_plain (some "movb") (asm context right 8) (some "%cl") counter-plain) (
        Encodes-⨾ _ _
          (from_plain (sized context mnemonic size) (some "%cl") (asm context left size)
            counter-plain)
          (move-Encodes left size name size))

  visit_flag_to_reg-Encodes :
      (name : String) (flag : FlagToRegType) (left right : String)
      → Encodes (visit_flag_to_reg context name flag left right)
  unfolding visit_flag_to_reg
  visit_flag_to_reg-Encodes name flag left right =
      Encodes-⨾ _ _ (write_cmp-Encodes context _ _ _ _) (
        Encodes-⨾ _ _ (Encodes-one ("set" ++ flag_text flag) ("%cl" ∷ []) refl) (
          Encodes-⨾ _ _
            (from_plain (some "movzbl") (some "%cl") (asm context register_10 32) counter-plain)
            (move-Encodes register_10 32 name 32)))

  visit_copy-Encodes :
      (destination : String) (size : ℕ) (register : Option ℕ) (source : String)
      → Encodes (visit_copy context destination size register source)
  unfolding visit_copy
  visit_copy-Encodes destination size register source =
      Encodes->>= (copy_source context register source) _ (λ src. move-Encodes _ _ _ _)

  visit_copy_addr-Encodes :
      (destination source : String) (local : Bool)
      → Encodes (visit_copy_addr context destination source local)
  unfolding visit_copy_addr
  visit_copy_addr-Encodes destination source true =
      Encodes-⨾ _ _
        (to_plain (some "leaq") (asm context source 64) (reg_to_asm accumulator 64)
          (λ d. reg_to_asm-plain accumulator 64))
        (from_plain (some "movq") (reg_to_asm accumulator 64) (asm context destination 64)
          (λ s. reg_to_asm-plain accumulator 64))
  visit_copy_addr-Encodes destination source false = move-Encodes _ _ _ _

  transfer-Encodes :
      (source : Option String) (place : String) (size : ℕ) (destination : String)
      → Encodes (transfer context source place size destination)
  unfolding transfer
  transfer-Encodes none place size destination = move-Encodes _ _ _ _
  transfer-Encodes (some source) place size destination =
      Encodes-⨾ _ _ (move-Encodes _ _ _ _) (move-Encodes _ _ _ _)

  extend_index-Encodes : (size : ℕ) → Encodes (extend_index size)
  unfolding extend_index
  extend_index-Encodes size =
      Encodes-if (ltb size 64) _ _
        (Encodes-if (size == 32) _ _ (Encodes-one "cltq" [] refl)
          (Encodes-if (size == 16) _ _ (Encodes-one "cwtq" [] refl) (Encodes-one "cbtq" [] refl)))
        (Encodes-some tt)

  local_access-Encodes :
      (name destination : String) (size : ℕ) (source : Option String)
      → Encodes (local_access context name destination size source)
  unfolding local_access
  local_access-Encodes name destination size source =
      Encodes->>= (asm context name size) _
        (λ base. Encodes->>= (reg_to_asm accumulator 64) _ (λ rax. transfer-Encodes _ _ _ _))

  leaq-Encodes :
      (rax rdx : Option String) (text : String → String)
      → ((d : String) → rdx ≡ some d → is_memory d ≡ false)
      → Encodes (rax >>= λ a. rdx >>= λ d. one "leaq" (text a ∷ d ∷ []))
  leaq-Encodes none rdx text h = Encodes-none
  leaq-Encodes (some a) rdx text h = to_plain (some "leaq") (some (text a)) rdx h

  remote_access-Encodes :
      (name destination : String) (size : ℕ) (source : Option String)
      → Encodes (remote_access context name destination size source)
  unfolding remote_access
  remote_access-Encodes name destination size source =
      Encodes-⨾ _ _
        (leaq-Encodes (reg_to_asm accumulator 64) (reg_to_asm data_reg 64) _
          (λ d. reg_to_asm-plain data_reg 64))
        (Encodes-⨾ _ _ (move-Encodes _ _ _ _) (
          Encodes-⨾ _ _ (write_add-Encodes context _ _ _ _)
            (Encodes-⨾ _ _ (transfer-Encodes _ _ _ _) (Encodes-unary _ _))))

  visit_array_access-Encodes :
      (destination : String) (size : ℕ) (index : String) (index_type : PrimaryType) (name : String)
      (source : Option String)
      → Encodes (visit_array_access context destination size index index_type name source)
  unfolding visit_array_access
  visit_array_access-Encodes destination size index index_type name source =
      Encodes-⨾ _ _ (Encodes-unary _ _) (
        Encodes-⨾ _ _ (move-Encodes _ _ _ _) (
          Encodes-⨾ _ _ (extend_index-Encodes (memory_length index_type)) (
            Encodes->>= (is_symbol_param_array context.frames context.function_context name) _
              (λ pointer.
                Encodes-if pointer _ _ (remote_access-Encodes _ _ _ _)
                  (local_access-Encodes _ _ _ _)))))

  reserve-Encodes : (size : StackSize) → Encodes (reserve context size)
  unfolding reserve is_memory
  reserve-Encodes (reserved size) =
      Encodes-one "subq" (String.◌∷◌ "$" (to_string size) ∷ "%rsp" ∷ []) refl
  reserve-Encodes missing = Encodes-none
  reserve-Encodes negative = Encodes-none

  visit_prolog-Encodes : Encodes (visit_prolog context)
  unfolding visit_prolog is_memory
  visit_prolog-Encodes =
      Encodes-⨾ _ _ (Encodes-one "pushq" ("%rbp" ∷ []) refl)
        (Encodes-⨾ _ _ (Encodes-one "movq" ("%rsp" ∷ "%rbp" ∷ []) refl) (reserve-Encodes _))

  visit_epilog-Encodes : Encodes (visit_epilog context)
  unfolding visit_epilog
  visit_epilog-Encodes = Encodes-⨾ _ _ (Encodes-one "leave" [] refl) (Encodes-one "ret" [] refl)

  restore_registers-Encodes : (i rest : ℕ) → Encodes (restore_registers context i rest)
  unfolding restore_registers
  restore_registers-Encodes i zero = Encodes-some tt
  restore_registers-Encodes i (suc rest) =
      Encodes-⨾ _ _ (Encodes-unary _ _) (restore_registers-Encodes (suc i) rest)

  visit_call-Encodes :
      (name : String) (size : ℕ) (function : String) (arguments : ℕ) (variadic : Bool)
      → Encodes (visit_call context name size function arguments variadic)
  unfolding visit_call is_memory
  visit_call-Encodes name size function arguments variadic =
      Encodes-⨾ _ _ (Encodes-if variadic _ _ (move-Encodes _ _ _ _) (Encodes-some tt)) (
        Encodes-⨾ _ _ (Encodes-one "call" (function ∷ []) refl) (
          Encodes-⨾ _ _ (Encodes-if (ltb 0 size) _ _ (move-Encodes _ _ _ _) (Encodes-some tt)) (
            Encodes-⨾ _ _ (restore_registers-Encodes 0 (register_arguments context arguments)) (
              Encodes-if (ltb 6 arguments) _ _
                (Encodes-one "addq" (String.◌∷◌ "$" (to_string ((arguments - 6) * 8)) ∷ "%rsp" ∷ [])
                  refl)
                (Encodes-some tt)))))

  visit_return-Encodes : (source : String) (size : ℕ) → Encodes (visit_return context source size)
  unfolding visit_return
  visit_return-Encodes source size =
      Encodes-⨾ _ _ (Encodes-if (ltb 0 size) _ _ (move-Encodes _ _ _ _) (Encodes-some tt))
        (Encodes-unary _ _)

  visit_call_parameter-Encodes :
      (value : String) (size index : ℕ) (is_address : Bool)
      → Encodes (visit_call_parameter context value size index is_address)
  unfolding visit_call_parameter
  visit_call_parameter-Encodes value size index is_address =
      Encodes-if (ltb index 6) _ _
        (Encodes->>= (get_fc_reg index) _
          (λ register. Encodes-⨾ _ _ (Encodes-unary _ _) (move-Encodes _ _ _ _)))
        (Encodes-unary _ _)

  visit_kind-Encodes :
      (name : String) (size : ℕ) (kind : Kind) → Encodes (visit_kind context name size kind)
  unfolding visit_kind
  visit_kind-Encodes name size (addition left right) = visit_addition-Encodes name size left right
  visit_kind-Encodes name size (subtraction left right) =
      visit_subtraction-Encodes name size left right
  visit_kind-Encodes name size (multiplication left right) =
      by_accumulator-Encodes "imul" name size left right
  visit_kind-Encodes name size (division left right) = visit_division-Encodes name size left right
  visit_kind-Encodes name size (modulo left right) = visit_mod-Encodes name size left right
  visit_kind-Encodes name size (left_shift left right) = by_shift-Encodes "sal" name size left right
  visit_kind-Encodes name size (right_shift left right) =
      by_shift-Encodes "sar" name size left right
  visit_kind-Encodes name size (bitwise_and left right) =
      by_accumulator-Encodes "and" name size left right
  visit_kind-Encodes name size (bitwise_or left right) =
      by_accumulator-Encodes "or" name size left right
  visit_kind-Encodes name size (bitwise_xor left right) =
      by_accumulator-Encodes "xor" name size left right
  visit_kind-Encodes name size (flag_to_reg flag left right) =
      visit_flag_to_reg-Encodes name flag left right
  visit_kind-Encodes name size (copy register source) = visit_copy-Encodes name size register source
  visit_kind-Encodes name size (copy_addr source local) = visit_copy_addr-Encodes name source local
  visit_kind-Encodes name size (array_access index index_type array source) =
      visit_array_access-Encodes name size index index_type array source
  visit_kind-Encodes name size (ld_const value) = move-Encodes _ _ _ _
  visit_kind-Encodes name size empty = Encodes-some tt
  visit_kind-Encodes name size prolog = visit_prolog-Encodes
  visit_kind-Encodes name size epilog = visit_epilog-Encodes
  visit_kind-Encodes name size nop = Encodes-one "nop" [] refl
  visit_kind-Encodes name size void = Encodes-some tt
  visit_kind-Encodes name size return_from = visit_return-Encodes name size
  visit_kind-Encodes name size (break_to label) = Encodes-one "jmp" (label ∷ []) refl
  visit_kind-Encodes name size (call function arguments variadic) =
      visit_call-Encodes name size function arguments variadic
  visit_kind-Encodes name size (call_parameter index is_address) =
      visit_call_parameter-Encodes name size index is_address
  visit_kind-Encodes name size (push source) = Encodes-unary _ _
  visit_kind-Encodes name size (pop destination) = Encodes-unary _ _

  pub visit-Encodes : (i : Instruction) → Encodes (visit context i)
  unfolding visit
  visit-Encodes i = visit_kind-Encodes i.return_name (memory_length i.type) i.kind

  -- Whatever the instruction and the frames, when the visitor writes lines for it at all, none of the
  -- lines has two operands in memory.
  pub visit-AreEncodable :
      (i : Instruction) (lines : List Line) → visit context i ≡ some lines → AreEncodable lines
  visit-AreEncodable i = Encodes-lines (visit-Encodes i)
