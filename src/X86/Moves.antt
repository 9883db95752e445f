-- ===== src/X86/Moves.antt =====
-- X86_64IRVisitor.cpp: the lines that `writeMove` writes.
use Prim.Native.String.{◌++◌}
use caramel.Prelude.{
  lookup, ℕ, suc, ◌≡◌, refl, String, Bool, true, false, ◌&&◌, some, List, [], ◌∷◌, arith,
  Bool-cases, inl, inr, if◌then◌else◌,
}
use caramel.X86.{
  Context, Line, line, register_10, register_11, dest_reg, reg_to_asm, to_assembly, is_register,
  get_size_suffix,
}
use caramel.X86.Move.{
  Writer, is_memory, is_narrow, max_size, widen, spill, prepare_instr, move_with, write_move, sized,
}
use caramel.X86.Plain.{reg_to_asm-plain}
use caramel.X86.Fuel.{widen-plain, register_10-wide}

max_size-same : (size : ℕ) → max_size size size ≡ size
max_size-same size = ground arith

abbrev pub moved : Bool → String → String → String → String → List Line
moved through mov src_asm dest_asm r10 =
    if through
    then line mov (src_asm ∷ r10 ∷ []) ∷ line mov (r10 ∷ dest_asm ∷ []) ∷ []
    else line mov (src_asm ∷ dest_asm ∷ []) ∷ []

module _ (context : Context) (size : ℕ) {suffix r10 : String}
    (suffixed : get_size_suffix size ≡ some suffix)
    (registered : reg_to_asm register_10 size ≡ some r10) where
  register_10-to_assembly : to_assembly context register_10 size ≡ some r10
  unfolding to_assembly is_register
  register_10-to_assembly = registered

  -- A move one call deep, of operands that are not both in memory.
  move_with-line :
      (fuel : ℕ) (src dest : String) {src_asm dest_asm : String}
      → is_narrow src size ≡ false
      → is_narrow dest size ≡ false
      → to_assembly context src size ≡ some src_asm
      → to_assembly context dest size ≡ some dest_asm
      → (is_memory src_asm && is_memory dest_asm) ≡ false
      → move_with context (suc fuel) src size dest size
        ≡ some (line ("mov" ++ suffix) (src_asm ∷ dest_asm ∷ []) ∷ [])
  unfolding move_with prepare_instr spill sized
  move_with-line fuel src dest ns nd hs hd apart =
      rw
        (
          widen-plain (move_with context fuel) src size register_10 ns,
          widen-plain (move_with context fuel) dest size register_11 nd,
          hs,
          hd,
          apart,
          max_size-same size,
          suffixed,
        )
        refl

  spilled :
      (move : Writer) (src dest : String) {src_asm dest_asm : String} {lines : List Line}
      → is_narrow src size ≡ false
      → is_narrow dest size ≡ false
      → to_assembly context src size ≡ some src_asm
      → to_assembly context dest size ≡ some dest_asm
      → (is_memory src_asm && is_memory dest_asm) ≡ true
      → move src size register_10 size ≡ some lines
      → prepare_instr context move src size dest size
        ≡ some (record { before = lines; size = size; src_asm = r10; dest_asm = dest_asm })
  unfolding prepare_instr spill
  spilled move src dest ns nd hs hd both to_r10 =
      rw
        (
          widen-plain move src size register_10 ns,
          widen-plain move dest size register_11 nd,
          hs,
          hd,
          both,
          to_r10,
          max_size-same size,
          registered,
        )
        refl

  -- Between two operands that can be written at a size of the tables, neither of them an 8-bit %rsi or
  -- %rdi, `writeMove` does write:
  -- one `mov`, or two through %r10 where both are in memory.
  pub write_move-moved :
      (src dest : String) {src_asm dest_asm : String}
      → is_narrow src size ≡ false
      → is_narrow dest size ≡ false
      → to_assembly context src size ≡ some src_asm
      → to_assembly context dest size ≡ some dest_asm
      → write_move context src size dest size
        ≡ some
            (moved (is_memory src_asm && is_memory dest_asm) ("mov" ++ suffix) src_asm dest_asm r10)
  unfolding write_move move_with sized
  write_move-moved src dest {src_asm = src_asm} {dest_asm = dest_asm} ns nd hs hd =
      elim (Bool-cases (is_memory src_asm && is_memory dest_asm)) [
        | inr e ↦ rw e (move_with-line 1 src dest ns nd hs hd e)
        | inl e ↦ rw (e, spilled (move_with context 1) src dest ns nd hs hd e to_r10, suffixed) refl
      ]
    where
      to_r10 :
          move_with context 1 src size register_10 size
          ≡ some (line ("mov" ++ suffix) (src_asm ∷ r10 ∷ []) ∷ [])
      to_r10 =
          move_with-line 0 src register_10 ns (register_10-wide size) hs register_10-to_assembly
            (let plain = reg_to_asm-plain register_10 size registered in ground arith)

-- An 8-bit move to %rdi, from a source that is neither %rsi nor %rdi: %rdi is copied to %r11 and the
-- source is moved to %r11b; no line writes to %rdi.
pub write_move-narrow :
    (context : Context) (src : String) {src_asm : String}
    → is_narrow src 8 ≡ false
    → to_assembly context src 8 ≡ some src_asm
    → write_move context src 8 dest_reg 8
      ≡ some (line "movl" ("%edi" ∷ "%r11d" ∷ []) ∷ line "movb" (src_asm ∷ "%r11b" ∷ []) ∷ [])
unfolding write_move move_with prepare_instr spill sized widen to_assembly is_register reg_to_asm
    get_size_suffix is_memory lookup
write_move-narrow context src {src_asm = src_asm} ns hs =
    rw (ns, hs) (elim (Bool-cases (is_memory src_asm)) [ inl e ↦ rw e refl | inr e ↦ rw e refl ])
