-- ===== src/Blocks/Assembly.antt =====
-- src/ir/x86_64/X86_64BasicBlockVisitor.cpp: the lines of a block.
use Prim.Native.String.{◌++◌}
use mathlib.Core.Option.{some-injective}
use caramel.Prelude.{
  subst, ℕ, String, false, ◌≡◌, refl, Option, none, some, List, [], ◌∷◌, if◌then◌else◌,
}
use caramel.Cfg.{Frames}
use caramel.Ir.{Instruction}
use caramel.X86.{Context, Lines}
use caramel.X86.Operators.{◌⨾◌, one, binary, asm}
use caramel.X86.Visit.{visit}
use caramel.X86.Encodable.{Encodes, Encodes-some, Encodes-⨾}
use caramel.X86.Encodable.Kinds.{visit-Encodes, from_plain, Encodes-one, Encodes-if}
use caramel.X86.Move.{is_memory}
use caramel.Blocks.{Block, is_empty}

-- What an instruction of the block reads: the frames of its graph, and the label of the last block of
-- its function.
abbrev context_of : Block → Frames → Option String → Context
context_of block frames end_label = record {
  frames = frames;
  function_context = block.function_context;
  end_label = end_label;
}

module _ (context : Context) where
  visit_all : List Instruction → Lines
  visit_all [] = some []
  visit_all (i ∷ is) = let rest = visit_all is in visit context i ⨾ rest

  -- The comparison of what the last instruction returns with 0, as 32 bits whatever its type.
  compare_last : List Instruction → Lines
  compare_last [] = some []
  compare_last (i ∷ []) = binary (some "cmpl") (some "$0") (asm context i.return_name 32)
  compare_last (i ∷ j ∷ is) = compare_last (j ∷ is)

  -- `labels` has the label of each block.
  module _ (labels : ℕ → String) where
    jump_to : String → Option ℕ → Lines
    jump_to mnemonic none = some []
    jump_to mnemonic (some block) = one mnemonic (labels block ∷ [])

    -- The jumps behind a block. One with no instruction and an exit for false only jumps there.
    exits : List Instruction → Option ℕ → Option ℕ → Lines
    unfolding compare_last jump_to
    exits is when_true none = jump_to "jmp" when_true
    exits [] when_true (some other) = jump_to "jmp" (some other)
    exits (i ∷ is) when_true (some other) =
        compare_last (i ∷ is) ⨾ jump_to "je" (some other) ⨾ jump_to "jmp" when_true

    -- `X86_64BasicBlockVisitor::generateAssembly`
    write_block : Block → Lines
    unfolding visit_all exits is_empty
    write_block block =
        (if is_empty block.label_name then some [] else one (block.label_name ++ ":") [])
        ⨾ visit_all block.instructions
        ⨾ exits block.instructions block.exit_when_true block.exit_when_false

    visit_all-Encodes : (is : List Instruction) → Encodes (visit_all is)
    unfolding visit_all
    visit_all-Encodes [] = Encodes-some tt
    visit_all-Encodes (i ∷ is) = Encodes-⨾ _ _ (visit-Encodes context i) (visit_all-Encodes is)

    compare_last-Encodes : (is : List Instruction) → Encodes (compare_last is)
    unfolding compare_last is_memory
    compare_last-Encodes [] = Encodes-some tt
    compare_last-Encodes (i ∷ []) =
        from_plain context (some "cmpl") (some "$0") (asm context i.return_name 32) (λ s h.
          let same : "$0" ≡ s = some-injective _ _ h in subst (λ x. is_memory x ≡ false) same refl)
    compare_last-Encodes (i ∷ j ∷ is) = compare_last-Encodes (j ∷ is)

    jump_to-Encodes : (mnemonic : String) (block : Option ℕ) → Encodes (jump_to mnemonic block)
    unfolding jump_to
    jump_to-Encodes mnemonic none = Encodes-some tt
    jump_to-Encodes mnemonic (some block) = Encodes-one mnemonic (labels block ∷ []) refl

    exits-Encodes :
        (is : List Instruction) (when_true when_false : Option ℕ)
        → Encodes (exits is when_true when_false)
    unfolding exits
    exits-Encodes is when_true none = jump_to-Encodes "jmp" when_true
    exits-Encodes [] when_true (some other) = jump_to-Encodes "jmp" (some other)
    exits-Encodes (i ∷ is) when_true (some other) =
        Encodes-⨾ _ _ (compare_last-Encodes (i ∷ is))
          (Encodes-⨾ _ _ (jump_to-Encodes "je" (some other)) (jump_to-Encodes "jmp" when_true))

    write_block-Encodes : (block : Block) → Encodes (write_block block)
    unfolding write_block
    write_block-Encodes block =
        Encodes-⨾ _ _
          (Encodes-if (is_empty block.label_name) _ _ (Encodes-some tt)
            (Encodes-one (block.label_name ++ ":") [] refl))
          (Encodes-⨾ _ _ (visit_all-Encodes block.instructions)
            (exits-Encodes block.instructions block.exit_when_true block.exit_when_false))

-- The lines of a block over the frames of its graph.
unfoldable pub generate_assembly : Frames → Option String → (ℕ → String) → Block → Lines
unfolding write_block
generate_assembly frames end_label labels block =
    write_block (context_of block frames end_label) labels block

pub generate_assembly-Encodes :
    (frames : Frames) (end_label : Option String) (labels : ℕ → String) (block : Block)
    → Encodes (generate_assembly frames end_label labels block)
unfolding generate_assembly
generate_assembly-Encodes frames end_label labels block =
    write_block-Encodes (context_of block frames end_label) labels block
