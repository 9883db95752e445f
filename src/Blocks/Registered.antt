-- ===== src/Blocks/Registered.antt =====
-- BasicBlock.cpp, `addInstruction`: what the instructions of a block return has a slot.
use mathlib.Core.List.{append-nil, append_assoc}
use caramel.Prelude.{
  sym, ◌∙◌, lookup-insert, eq_refl, ℕ, ltb, ◌≡◌, refl, String, Bool, true, false, ◌||◌, not, some,
  List, [], ◌∷◌, ◌++◌, All, arith, Bool-cases, inl, inr,
}
use caramel.Prelude.Int.{◌-ℤ◌, pos}
use caramel.Types.{PrimaryType, memory_length}
use caramel.Cfg.{Frames, write, push_slot, has_symbol, add_symbol, stack_at, bytes}
use caramel.Cfg.Sizes.{Built, symbol}
use caramel.Ir.{Instruction}
use caramel.Blocks.{Block, returns_value, register, add_instructions, with_instruction}

module _ (context : ℕ) (name : String) (type : PrimaryType) (frames : Frames) where
  abbrev pushed : Frames
  pushed = write context (push_slot name type (frames context)) frames

  add_symbol-free :
      has_symbol frames context name ≡ false
      → ltb 0 (memory_length type) ≡ true
      → add_symbol frames context name type
        ≡ some (stack_at (frames context) -ℤ pos (bytes type), pushed)
  unfolding add_symbol
  add_symbol-free free sized = ground arith

  has_symbol-pushed_self : has_symbol pushed context name ≡ true
  unfolding has_symbol push_slot
  has_symbol-pushed_self =
      ground (arith, lookup-insert name name type (frames context).symbols, eq_refl name)

  has_symbol-pushed :
      (m : String) → has_symbol frames context m ≡ true → has_symbol pushed context m ≡ true
  unfolding has_symbol push_slot
  has_symbol-pushed m h = ground (arith, lookup-insert name m type (frames context).symbols)

-- What the instruction returns, if anything, has a slot.
abbrev pub has_slot : Frames → ℕ → Instruction → Bool
has_slot frames context i = not (returns_value i) || has_symbol frames context i.return_name

-- The frames after the registration of an instruction.
pub record IsRegistered (i : Instruction) (context : ℕ) (frames : Frames) : Type 0 where
  pub frames' : Frames
  pub ran : register i context frames ≡ some frames'
  pub slot : has_slot frames' context i ≡ true
  pub kept : (m : String) → has_symbol frames context m ≡ true → has_symbol frames' context m ≡ true
  pub built : Built frames → Built frames'

pub register-IsRegistered :
    (i : Instruction) (context : ℕ) (frames : Frames) → IsRegistered i context frames
unfolding register
register-IsRegistered i context frames = elim (Bool-cases (returns_value i)) [
  | inr v ↦ record {
    frames' = frames;
    ran = rw v refl;
    slot = rw v refl;
    kept = λ m h. h;
    built = λ b. b;
  }
  | inl v ↦ elim (Bool-cases (has_symbol frames context i.return_name)) [
    | inl e ↦ record {
      frames' = frames;
      ran = rw (v, e) refl;
      slot = rw (v, e) refl;
      kept = λ m h. h;
      built = λ b. b;
    }
    | inr free ↦
        (let added = add_symbol-free context i.return_name i.type frames free (sized i v) in
          record {
            frames' = pushed context i.return_name i.type frames;
            ran = rw (v, free, added) refl;
            slot = rw (v, has_symbol-pushed_self context i.return_name i.type frames) refl;
            kept = has_symbol-pushed context i.return_name i.type frames;
            built = λ b. symbol context i.return_name i.type _ b added;
          })
  ]
]
  where
    sized : (i : Instruction) → returns_value i ≡ true → ltb 0 (memory_length i.type) ≡ true
    sized i v = ground arith

-- The block and the frames after a sequence of instructions.
record AreAdded (is : List Instruction) (block : Block) (frames : Frames) : Type 0 where
  block' : Block
  frames' : Frames
  ran : add_instructions is block frames ≡ some (block', frames')
  appended : block'.instructions ≡ block.instructions ++ is
  slots : All (λ i. has_slot frames' block.function_context i ≡ true) is
  kept :
      (m : String)
      → has_symbol frames block.function_context m ≡ true
      → has_symbol frames' block.function_context m ≡ true
  built : Built frames → Built frames'

has_slot_kept :
    (frames frames' : Frames) (context : ℕ) (i : Instruction)
    → ((m : String) → has_symbol frames context m ≡ true → has_symbol frames' context m ≡ true)
    → has_slot frames context i ≡ true
    → has_slot frames' context i ≡ true
has_slot_kept frames frames' context i kept h = elim (Bool-cases (returns_value i)) [
  | inr v ↦ rw v refl
  | inl v ↦ rw (v, kept i.return_name (ground arith)) refl
]

add_instructions-AreAdded :
    (is : List Instruction) (block : Block) (frames : Frames) → AreAdded is block frames
unfolding add_instructions
add_instructions-AreAdded [] block frames = record {
  block' = block;
  frames' = frames;
  ran = refl;
  appended = sym (append-nil block.instructions);
  slots = tt;
  kept = λ m h. h;
  built = λ b. b;
}
add_instructions-AreAdded (i ∷ is) block frames =
    let first = register-IsRegistered i block.function_context frames in
    let rest = add_instructions-AreAdded is (with_instruction i block) first.frames' in
    record {
      block' = rest.block';
      frames' = rest.frames';
      ran = rw (first.ran, add_instructions) rest.ran;
      appended = rest.appended ∙ append_assoc block.instructions (i ∷ []) is;
      slots = (
        has_slot_kept first.frames' rest.frames' block.function_context i rest.kept first.slot,
        rest.slots,
      );
      kept = λ m h. rest.kept m (first.kept m h);
      built = λ b. rest.built (first.built b);
    }

-- Adding instructions to a block, over frames that the graph builds, never stops the program: they
-- are appended in order, the frames are again as the graph builds them, and every one that returns a
-- value has a slot for it.
pub add_instructions-has_slot :
    (is : List Instruction) (block : Block) (frames : Frames)
    → Built frames
    → (block' : Block) × (frames' : Frames) × (add_instructions is block frames
        ≡ some (block', frames'))
      × (block'.instructions ≡ block.instructions ++ is)
      × Built frames'
      × All (λ i. has_slot frames' block.function_context i ≡ true) is
add_instructions-has_slot is block frames b =
    let added = add_instructions-AreAdded is block frames in
    (added.block', added.frames', added.ran, added.appended, added.built b, added.slots)
