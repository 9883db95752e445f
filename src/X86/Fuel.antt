-- ===== src/X86/Fuel.antt =====
-- X86_64IRVisitor.cpp: how deep `writeMove` and `prepareInstr` call one another.
use caramel.Prelude.{
  ap, subst, ℕ, suc, ◌==◌, ◌≡◌, refl, String, true, false, ◌&&◌, some, List, [], arith, Bool-cases,
  Option-cases, inl, inr,
}
use mathlib.Core.List.{◌++◌ as append}
use caramel.X86.{Context, Line, ◌>>=◌, register_10, register_11, to_assembly, is_register}
use caramel.X86.Move.{
  Writer, is_memory, is_narrow, max_size, widen, spill, prepare_instr, move_with, write_move,
  with_operands, sized,
}
use caramel.X86.Plain.{to_assembly-plain}

pub widen-plain :
    (move : Writer) (symbol : String) (size : ℕ) (scratch : String)
    → is_narrow symbol size ≡ false
    → widen move symbol size scratch ≡ some ([], symbol)
unfolding widen
widen-plain move symbol size scratch h = rw h refl

widen-not_narrow :
    (move : Writer) (symbol : String) (size : ℕ) (scratch : String) {before : List Line}
    {symbol' : String}
    → is_narrow scratch size ≡ false
    → widen move symbol size scratch ≡ some (before, symbol')
    → is_narrow symbol' size ≡ false
unfolding widen
widen-not_narrow move symbol size scratch {before = before} {symbol' = symbol'} s h =
    elim (Bool-cases (is_narrow symbol size)) [
      | inl e ↦ elim (Option-cases (move symbol 32 scratch 32)) [
        | inl f ↦ absurd (ground arith)
        | inr (lines, f) ↦
            (let same : scratch ≡ symbol' = ground arith in
              subst (λ x. is_narrow x size ≡ false) same s)
      ]
      | inr e ↦
          (let same : symbol ≡ symbol' = ground arith in
            subst (λ x. is_narrow x size ≡ false) same e)
    ]

pub register_10-wide : (size : ℕ) → is_narrow register_10 size ≡ false
register_10-wide size = elim (Bool-cases (size == 8)) [ inl e ↦ rw e refl | inr e ↦ rw e refl ]

module _ (context : Context) where
  -- Two writers that agree on the moves of an operand to a register.
  abbrev Agree : Writer → Writer → Type 0
  Agree m n =
      (src : String) (size : ℕ) (dest : String)
      → is_narrow src size ≡ false
      → is_narrow dest size ≡ false
      → is_register dest ≡ true
      → m src size dest size ≡ n src size dest size

  spill-register :
      (m n : Writer) (before : List Line) (src : String) (src_size size : ℕ)
      (src_asm dest_asm : String)
      → is_memory dest_asm ≡ false
      → spill context m before src src_size size src_asm dest_asm
        ≡ spill context n before src src_size size src_asm dest_asm
  unfolding spill
  spill-register m n before src src_size size src_asm dest_asm h =
      let apart : (is_memory src_asm && is_memory dest_asm) ≡ false = ground arith in rw apart refl

  -- A move to a register writes no other move.
  prepare_instr-register :
      (m n : Writer) (src : String) (src_size : ℕ) (dest : String) (dest_size : ℕ)
      → is_narrow src src_size ≡ false
      → is_narrow dest dest_size ≡ false
      → is_register dest ≡ true
      → prepare_instr context m src src_size dest dest_size
        ≡ prepare_instr context n src src_size dest dest_size
  unfolding prepare_instr
  prepare_instr-register m n src src_size dest dest_size s d r =
      rw
        (
          widen-plain m src src_size register_10 s,
          widen-plain m dest dest_size register_11 d,
          widen-plain n src src_size register_10 s,
          widen-plain n dest dest_size register_11 d,
        )
        (elim (Option-cases (to_assembly context src src_size)) [
          | inl e ↦ rw e refl
          | inr (src_asm, e) ↦ elim (Option-cases (to_assembly context dest dest_size)) [
            | inl f ↦ rw (e, f) refl
            | inr (dest_asm, f) ↦
                rw (e, f)
                  (spill-register m n (append [] []) src src_size (max_size src_size dest_size)
                    src_asm dest_asm (to_assembly-plain context dest dest_size r f))
          ]
        ])

  move_with-register : (fuel : ℕ) → Agree (move_with context (suc fuel)) (move_with context 1)
  unfolding move_with
  move_with-register fuel src size dest s d r =
      ap (λ p. p >>= λ p. with_operands context (sized context "mov" p.size) p)
        (prepare_instr-register (move_with context fuel) (move_with context 0) src size dest size s
          d r)

  widen-Agree :
      (m n : Writer) (symbol : String) (size : ℕ) (scratch : String)
      → Agree m n
      → is_register scratch ≡ true
      → widen m symbol size scratch ≡ widen n symbol size scratch
  unfolding widen
  widen-Agree m n symbol size scratch agree r = elim (Bool-cases (is_narrow symbol size)) [
    | inl e ↦ rw (e, agree symbol 32 scratch refl refl r) refl
    | inr e ↦ rw e refl
  ]

  spill-Agree :
      (m n : Writer) (before : List Line) (src : String) (src_size size : ℕ)
      (src_asm dest_asm : String)
      → Agree m n
      → is_narrow src src_size ≡ false
      → spill context m before src src_size size src_asm dest_asm
        ≡ spill context n before src src_size size src_asm dest_asm
  unfolding spill is_register
  spill-Agree m n before src src_size size src_asm dest_asm agree s =
      rw (agree src src_size register_10 s (register_10-wide src_size) refl) refl

  prepare_instr-Agree :
      (m n : Writer) (src : String) (src_size : ℕ) (dest : String) (dest_size : ℕ)
      → Agree m n
      → prepare_instr context m src src_size dest dest_size
        ≡ prepare_instr context n src src_size dest dest_size
  unfolding prepare_instr is_register
  prepare_instr-Agree m n src src_size dest dest_size agree =
      rw
        (
          widen-Agree m n src src_size register_10 agree refl,
          widen-Agree m n dest dest_size register_11 agree refl,
        )
        (elim (Option-cases (widen n src src_size register_10)) [
          | inl e ↦ rw e refl
          | inr ((before, src'), e) ↦ elim (Option-cases (widen n dest dest_size register_11)) [
            | inl f ↦ rw (e, f) refl
            | inr ((before', dest'), f) ↦ elim (Option-cases (to_assembly context src' src_size)) [
              | inl g ↦ rw (e, f, g) refl
              | inr (src_asm, g) ↦ elim (Option-cases (to_assembly context dest' dest_size)) [
                | inl k ↦ rw (e, f, g, k) refl
                | inr (dest_asm, k) ↦
                    rw (e, f, g, k)
                      (spill-Agree m n (append before before') src' src_size
                        (max_size src_size dest_size) src_asm dest_asm agree
                        (widen-not_narrow n src src_size register_10 (register_10-wide src_size) e))
              ]
            ]
          ]
        ])

  -- Two calls deep is as deep as `writeMove` goes: with any more fuel it writes the same.
  pub move_with-write_move :
      (fuel : ℕ) (src : String) (src_size : ℕ) (dest : String) (dest_size : ℕ)
      → move_with context (suc (suc fuel)) src src_size dest dest_size
        ≡ write_move context src src_size dest dest_size
  unfolding write_move move_with
  move_with-write_move fuel src src_size dest dest_size =
      ap (λ p. p >>= λ p. with_operands context (sized context "mov" p.size) p)
        (prepare_instr-Agree (move_with context (suc fuel)) (move_with context 1) src src_size dest
          dest_size (move_with-register fuel))
