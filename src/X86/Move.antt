-- ===== src/X86/Move.antt =====
-- X86_64IRVisitor.cpp: `prepareInstr`, `writeMove`, `writeCmp`, `writeAdd` and `writeSub`.

use Prim.Native.String.{◌++◌}
use caramel.Prelude.{
  ℕ, zero, suc, ◌==◌, leb, String, str_eq, Bool, ◌&&◌, ◌||◌, not, Option, none, some, List, [], ◌∷◌,
  if◌then◌else◌,
}
use mathlib.Core.List.{◌++◌ as append}
use caramel.X86.{
  Context, Line, line, Lines, ◌>>=◌, source_reg, dest_reg, register_10, register_11, reg_to_asm,
  get_size_suffix, to_assembly, starts_by,
}

-- `asm[0] != '%' && asm[0] != '$'`
unfoldable pub is_memory : String → Bool
unfolding starts_by
is_memory asm = not (starts_by (λ c. c == b'%' || c == b'$') asm)

-- %rsi and %rdi have no 8-bit form in the table.
abbrev pub is_narrow : String → ℕ → Bool
is_narrow symbol size = size == 8 && (str_eq symbol source_reg || str_eq symbol dest_reg)

abbrev pub max_size : ℕ → ℕ → ℕ
max_size a b = if leb b a then a else b

-- What `prepareInstr` writes, and the size and the two operands that it returns.
pub record Prepared : Type 0 where
  pub before : List Line
  pub size : ℕ
  pub src_asm : String
  pub dest_asm : String

-- A writer of moves: source and its size, destination and its size.
abbrev pub Writer : Type 0
Writer = String → ℕ → String → ℕ → Lines

-- An 8-bit %rsi or %rdi is copied to a scratch register, which takes its place.
unfoldable pub widen : Writer → String → ℕ → String → Option (List Line × String)
widen move symbol size scratch =
    if is_narrow symbol size
    then (move symbol 32 scratch 32 >>= λ lines. some (lines, scratch))
    else some ([], symbol)

module _ (context : Context) where
  -- Two operands in memory: the source is moved to %r10 first.
  unfoldable pub spill : Writer → List Line → String → ℕ → ℕ → String → String → Option Prepared
  spill move before src src_size size src_asm dest_asm =
      if is_memory src_asm && is_memory dest_asm
      then (do
        lines ← move src src_size register_10 src_size
        r10 ← reg_to_asm register_10 size
        some (record {
          before = append before lines;
          size = size;
          src_asm = r10;
          dest_asm = dest_asm;
        }))
      else some (record { before = before; size = size; src_asm = src_asm; dest_asm = dest_asm })

  unfoldable pub prepare_instr : Writer → String → ℕ → String → ℕ → Option Prepared
  unfolding widen spill
  prepare_instr move src src_size dest dest_size = do
    (before, src') ← widen move src src_size register_10
    (before', dest') ← widen move dest dest_size register_11
    src_asm ← to_assembly context src' src_size
    dest_asm ← to_assembly context dest' dest_size
    spill move (append before before') src' src_size (max_size src_size dest_size) src_asm dest_asm

  -- The tables of mnemonics all have the sizes of `get_size_suffix`.
  unfoldable pub sized : String → ℕ → Option String
  sized mnemonic size = get_size_suffix size >>= λ suffix. some (mnemonic ++ suffix)

  -- The line behind the prepared operands.
  abbrev pub with_operands : Option String → Prepared → Lines
  with_operands mnemonic p =
      mnemonic >>= λ m. some (append p.before (line m (p.src_asm ∷ p.dest_asm ∷ []) ∷ []))

  -- `writeMove` and `prepareInstr` call one another; the depth is at most two.
  unfoldable pub move_with : ℕ → Writer
  unfolding prepare_instr sized
  move_with zero src src_size dest dest_size = none
  move_with (suc fuel) src src_size dest dest_size = do
    p ← prepare_instr (move_with fuel) src src_size dest dest_size
    with_operands (sized "mov" p.size) p

  unfoldable pub write_move : Writer
  write_move = move_with 2

  unfoldable pub write_cmp : Writer
  unfolding prepare_instr
  write_cmp src src_size dest dest_size = do
    p ← prepare_instr write_move src src_size dest dest_size
    with_operands (some "cmp") p

  unfoldable pub write_add : Writer
  unfolding prepare_instr sized
  write_add src src_size dest dest_size = do
    p ← prepare_instr write_move src src_size dest dest_size
    with_operands (sized "add" p.size) p

  unfoldable pub write_sub : Writer
  unfolding prepare_instr sized
  write_sub src src_size dest dest_size = do
    p ← prepare_instr write_move src src_size dest dest_size
    with_operands (sized "sub" p.size) p
