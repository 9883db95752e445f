-- ===== src/Blocks/Tests.antt =====
-- BasicBlock.cpp and X86_64BasicBlockVisitor.cpp: a block of two instructions.
use caramel.Blocks.Order.{Exits, Progress, mem, order_from}
use caramel.Blocks.Order.Unvisited.{unique, has_exit}
use caramel.Blocks.Order.Once.{Reaches}
use caramel.Blocks.Order.Reached.{order_from-Reaches}
use caramel.Prelude.{
  arith, ◌↔◌, ◌==◌, if◌then◌else◌, ℕ, ◌≡◌, refl, true, some, none, List, [], ◌∷◌, ◌++◌, All,
  to_string, lookup, insert,
}
use caramel.Prelude.Int.{◌-ℤ◌}
use caramel.Types.{int32_t, memory_length}
use caramel.Cfg.{Frames, no_frame, enter_function, push_slot, write, get_symbol_index}
use caramel.Cfg.Sizes.{Built, start, enter}
use caramel.Ir.{Instruction, instruction, ld_const}
use caramel.X86.{
  Line, line, to_assembly, is_register, is_constant, is_address, reg_to_asm, get_size_suffix,
  offset_text,
}
use caramel.X86.Move.{write_move, move_with, prepare_instr, widen, spill, sized, is_memory}
use caramel.X86.Operators.{asm, move}
use caramel.X86.Visit.{visit, visit_kind}
use caramel.X86.Encodable.{AreEncodable}
use caramel.Blocks.{Block, add_instructions}
use caramel.Blocks.Registered.{has_slot, add_instructions-has_slot}
use caramel.Blocks.Assembly.{generate_assembly}
use caramel.Blocks.Program.{generate, generate-AreEncodable}

abbrev empty_block : Block
empty_block = record {
  id = 3;
  function_context = 1;
  label_name = ".L0";
  instructions = [];
  exit_when_true = some 4;
  exit_when_false = some 5;
}

abbrev load_x : Instruction
load_x = instruction "x" int32_t (ld_const "7")

abbrev load_y : Instruction
load_y = instruction "y" int32_t (ld_const "8")

abbrev entered : Frames
entered = enter_function (λ _. no_frame) 1

add_instructions-has_slot_example :
    (block' : Block) × (frames' : Frames) × (add_instructions
        (load_x ∷ load_y ∷ [])
        empty_block
        entered
      ≡ some (block', frames'))
    × (block'.instructions ≡ empty_block.instructions ++ load_x ∷ load_y ∷ [])
    × Built frames'
    × All (λ i. has_slot frames' empty_block.function_context i ≡ true) (load_x ∷ load_y ∷ [])
add_instructions-has_slot_example =
    add_instructions-has_slot (load_x ∷ load_y ∷ []) empty_block entered (enter 1 start refl)

abbrev with_x : Frames
with_x = write 1 (push_slot "x" int32_t no_frame) (λ _. no_frame)

abbrev full_block : Block
full_block = record empty_block { instructions = load_x ∷ [] }

-- Block 3 is the block above, and its exits lead to two blocks with a label each.
abbrev numbered : ℕ → Block
numbered block = if block == 3 then full_block else record empty_block {
  id = block;
  label_name = if block == 4 then ".L1" else ".L2";
  exit_when_true = none;
  exit_when_false = none;
}

abbrev written : List Line
written =
    line ".L0:" []
    ∷ line "movl" ("$7" ∷ "-4(%rbp)" ∷ [])
    ∷ line "cmpl" ("$0" ∷ "-4(%rbp)" ∷ [])
    ∷ line "je" (".L2" ∷ [])
    ∷ line "jmp" (".L1" ∷ [])
    ∷ line ".L1:" []
    ∷ line ".L2:" []
    ∷ []

writes_blocks : generate with_x numbered (λ _. none) 4 (3 ∷ []) [] ≡ some written
unfolding generate order_from generate_assembly visit visit_kind move asm write_move move_with
    prepare_instr widen spill sized to_assembly is_register is_constant is_address is_memory
    reg_to_asm get_size_suffix offset_text get_symbol_index push_slot memory_length lookup insert
    ◌-ℤ◌ to_string
writes_blocks = refl

generate-AreEncodable_example : AreEncodable written
generate-AreEncodable_example =
    generate-AreEncodable with_x numbered (λ _. none) 4 (3 ∷ []) written writes_blocks

-- Block 1 branches to 2 and 3, and 2 jumps back to 1.
abbrev loop : Exits
loop block =
    if block == 1 then (some 3, some 2) else if block == 2 then (none, some 1) else (none, none)

abbrev loop_blocks : List ℕ
loop_blocks = 1 ∷ 2 ∷ 3 ∷ []

loop_is_closed :
    (x : ℕ)
    → mem x loop_blocks ≡ true
    → (has_exit loop_blocks (loop x).0 ≡ true) × (has_exit loop_blocks (loop x).1 ≡ true)
loop_is_closed x h = ground arith

orders_loop :
    order_from 4 loop (some 1) (record { visited = []; order = [] })
    ≡ some (record { visited = 2 ∷ 3 ∷ 1 ∷ []; order = 1 ∷ 2 ∷ 3 ∷ [] })
unfolding order_from
orders_loop = refl

order_from-Reaches_example :
    (p : Progress) × (order_from 4 loop (some 1) (record { visited = []; order = [] }) ≡ some p)
    × (unique p.order ≡ true)
    × ((x : ℕ) → (mem x p.order ≡ true) ↔ Reaches loop (some 1) x)
order_from-Reaches_example = order_from-Reaches loop loop_blocks loop_is_closed 1 refl
