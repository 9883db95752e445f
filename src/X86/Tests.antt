-- ===== src/X86/Tests.antt =====
-- X86_64IRVisitor.cpp: the lines of a few instructions.
use Prim.Native.String.{◌++◌}
use caramel.Prelude.Int.{◌-ℤ◌}
use caramel.Prelude.{to_string, ℕ, ◌≡◌, refl, ◌&&◌, some, [], ◌∷◌, List, lookup, insert}
use caramel.Types.{int32_t, memory_length}
use caramel.Cfg.{no_frame, get_symbol_index, push_slot, write}
use caramel.Ir.{Instruction, addition, instruction}
use caramel.X86.{
  Context, Line, line, register_10, dest_reg, to_assembly, is_register, is_constant, is_address,
  reg_to_asm, get_size_suffix, offset_text,
}
use caramel.X86.Move.{
  is_memory, widen, spill, prepare_instr, sized, move_with, write_move, write_add,
}
use caramel.X86.Operators.{asm, move, visit_addition}
use caramel.X86.Visit.{visit, visit_kind}
use caramel.X86.Fuel.{move_with-write_move}
use caramel.X86.Moves.{moved, write_move-moved, write_move-narrow}
use caramel.X86.Encodable.{AreEncodable}
use caramel.X86.Encodable.Kinds.{visit-AreEncodable}

-- A function with the symbols x at -4 and y at -8.
abbrev context : Context
context = record {
  frames = write 1 (push_slot "y" int32_t (push_slot "x" int32_t no_frame)) (λ _. no_frame);
  function_context = 1;
  end_label = some "end";
}

abbrev add_x_y : Instruction
add_x_y = instruction "x" int32_t (addition "x" "y")

abbrev added : List Line
added =
    line "movl" ("-8(%rbp)" ∷ "%r10d" ∷ [])
    ∷ line "movl" ("%r10d" ∷ "-4(%rbp)" ∷ [])
    ∷ line "movl" ("-4(%rbp)" ∷ "%eax" ∷ [])
    ∷ line "addl" ("%eax" ∷ "-4(%rbp)" ∷ [])
    ∷ []

visits_addition : visit context add_x_y ≡ some added
unfolding visit visit_kind visit_addition move asm write_move write_add move_with prepare_instr
    widen spill sized to_assembly is_register is_constant is_address is_memory reg_to_asm
    get_size_suffix offset_text get_symbol_index push_slot memory_length lookup insert ◌-ℤ◌
    to_string
visits_addition = refl

visit-AreEncodable_example : AreEncodable added
visit-AreEncodable_example = visit-AreEncodable context add_x_y added visits_addition

move_with-write_move_example :
    move_with context 5 "x" 8 "%rdi" 8 ≡ write_move context "x" 8 "%rdi" 8
move_with-write_move_example = move_with-write_move context 3 "x" 8 "%rdi" 8

suffix_32 : get_size_suffix 32 ≡ some "l"
unfolding get_size_suffix
suffix_32 = refl

r10_32 : reg_to_asm register_10 32 ≡ some "%r10d"
unfolding reg_to_asm lookup
r10_32 = refl

asm_x : (size : ℕ) → to_assembly context "x" size ≡ some "-4(%rbp)"
unfolding to_assembly is_register is_constant is_address reg_to_asm offset_text get_symbol_index
    push_slot memory_length lookup insert ◌-ℤ◌ to_string
asm_x size = refl

asm_y : (size : ℕ) → to_assembly context "y" size ≡ some "-8(%rbp)"
unfolding to_assembly is_register is_constant is_address reg_to_asm offset_text get_symbol_index
    push_slot memory_length lookup insert ◌-ℤ◌ to_string
asm_y size = refl

write_move-moved_example :
    write_move context "x" 32 "y" 32
    ≡ some (
        moved
          (is_memory "-4(%rbp)" && is_memory "-8(%rbp)")
          ("mov" ++ "l")
          "-4(%rbp)"
          "-8(%rbp)"
          "%r10d")
write_move-moved_example =
    write_move-moved context 32 suffix_32 r10_32 "x" "y" refl refl (asm_x 32) (asm_y 32)

write_move-narrow_example :
    write_move context "x" 8 dest_reg 8
    ≡ some (line "movl" ("%edi" ∷ "%r11d" ∷ []) ∷ line "movb" ("-4(%rbp)" ∷ "%r11b" ∷ []) ∷ [])
write_move-narrow_example = write_move-narrow context "x" refl (asm_x 8)
