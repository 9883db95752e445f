-- ===== src/X86/Encodable.antt =====
-- X86_64IRVisitor.cpp: no instruction is written with two operands in memory, which x86-64 does not
-- encode.
pub mod Kinds
use mathlib.Core.Option.{some-injective}
use mathlib.Core.List.{◌++◌ as append}
use caramel.Prelude.{
  subst, ℕ, zero, suc, ◌≡◌, refl, String, Bool, true, false, ◌&&◌, not, Option, none, some, List,
  [], ◌∷◌, All, arith, Bool-cases, Option-cases, inl, inr,
}
use caramel.X86.{
  Context, Line, line, Lines, ◌>>=◌, register_10, register_11, reg_to_asm, to_assembly,
}
use caramel.X86.Move.{
  Writer, Prepared, is_memory, is_narrow, max_size, widen, spill, prepare_instr, move_with,
  write_move, write_add, write_sub, write_cmp, with_operands, sized,
}
use caramel.X86.Plain.{reg_to_asm-plain}
use caramel.X86.Operators.{◌⨾◌, unary, binary}

abbrev pub encodable : Line → Bool
encodable (line mnemonic (a ∷ b ∷ [])) = not (is_memory a && is_memory b)
encodable _ = true

abbrev pub AreEncodable : List Line → Type 0
AreEncodable = All (λ l. encodable l ≡ true)

-- Whatever is written is encodable.
pub data Encodes (out : Lines) : Type 0 where
  encodes : ((lines : List Line) → out ≡ some lines → AreEncodable lines) → Encodes out

pub Encodes-lines :
    {out : Lines} → Encodes out → (lines : List Line) → out ≡ some lines → AreEncodable lines
Encodes-lines (encodes f) = f

append-AreEncodable :
    (a b : List Line) → AreEncodable a → AreEncodable b → AreEncodable (append a b)
append-AreEncodable [] b p q = q
append-AreEncodable (l ∷ a) b (h, p) q = (h, append-AreEncodable a b p q)

pub Encodes-none : Encodes none
Encodes-none = encodes (λ lines h. absurd (cc))

pub Encodes-some : {lines : List Line} → AreEncodable lines → Encodes (some lines)
Encodes-some p = encodes (λ lines h. subst (λ x. AreEncodable x) (some-injective _ _ h) p)

pub Encodes-⨾ : (a b : Lines) → Encodes a → Encodes b → Encodes (a ⨾ b)
Encodes-⨾ none b p q = Encodes-none
Encodes-⨾ (some x) none p q = Encodes-none
Encodes-⨾ (some x) (some y) p q =
    Encodes-some (append-AreEncodable x y (Encodes-lines p x refl) (Encodes-lines q y refl))

-- A line with one operand, or none.
pub Encodes-unary : (mnemonic : String) (operand : Option String) → Encodes (unary mnemonic operand)
Encodes-unary mnemonic none = Encodes-none
Encodes-unary mnemonic (some asm) = Encodes-some (refl, tt)

pub Encodes-binary :
    (mnemonic src dest : Option String)
    → ((s d : String) → src ≡ some s → dest ≡ some d → (is_memory s && is_memory d) ≡ false)
    → Encodes (binary mnemonic src dest)
Encodes-binary none src dest h = Encodes-none
Encodes-binary (some m) none dest h = Encodes-none
Encodes-binary (some m) (some s) none h = Encodes-none
Encodes-binary (some m) (some s) (some d) h = Encodes-some (rw (h s d refl refl) refl, tt)

-- A prepared pair of operands: what comes before is encodable, and so is a line with the pair.
record IsPrepared (p : Prepared) : Type 0 where
  clean : AreEncodable p.before
  apart : (is_memory p.src_asm && is_memory p.dest_asm) ≡ false

with_operands-Encodes :
    (context : Context) (mnemonic : Option String) (p : Prepared)
    → IsPrepared p
    → Encodes (with_operands context mnemonic p)
with_operands-Encodes context none p h = Encodes-none
with_operands-Encodes context (some m) p h =
    Encodes-some (append-AreEncodable p.before _ h.clean (rw h.apart refl, tt))

abbrev prepared : List Line → ℕ → String → String → Prepared
prepared before size src_asm dest_asm = record {
  before = before;
  size = size;
  src_asm = src_asm;
  dest_asm = dest_asm;
}

module _ (context : Context) (move : Writer)
    (moves : (a : String) (n : ℕ) (b : String) (m : ℕ) → Encodes (move a n b m)) where
  widen-AreEncodable :
      (symbol : String) (size : ℕ) (scratch : String) {before : List Line} {symbol' : String}
      → widen move symbol size scratch ≡ some (before, symbol')
      → AreEncodable before
  unfolding widen
  widen-AreEncodable symbol size scratch {before = before} h =
      elim (Bool-cases (is_narrow symbol size)) [
        | inl e ↦ elim (Option-cases (move symbol 32 scratch 32)) [
          | inl f ↦ absurd (ground arith)
          | inr (lines, f) ↦
              (let same : lines ≡ before = ground arith in
                subst (λ x. AreEncodable x) same
                  (Encodes-lines (moves symbol 32 scratch 32) lines f))
        ]
        | inr e ↦ (let same : [] ≡ before = ground arith in subst (λ x. AreEncodable x) same tt)
      ]

  spill-IsPrepared :
      (before : List Line) (src : String) (src_size size : ℕ) (src_asm dest_asm : String)
      {p : Prepared}
      → AreEncodable before
      → spill context move before src src_size size src_asm dest_asm ≡ some p
      → IsPrepared p
  unfolding spill
  spill-IsPrepared before src src_size size src_asm dest_asm {p = p} clean h =
      elim (Bool-cases (is_memory src_asm && is_memory dest_asm)) [
        | inr e ↦
            (let same : prepared before size src_asm dest_asm ≡ p = ground arith in
              subst (λ x. IsPrepared x) same (record { clean = clean; apart = e }))
        | inl e ↦ elim (Option-cases (move src src_size register_10 src_size)) [
          | inl f ↦ absurd (ground arith)
          | inr (lines, f) ↦ elim (Option-cases (reg_to_asm register_10 size)) [
            | inl g ↦ absurd (ground arith)
            | inr (r10, g) ↦
                (let same : prepared (append before lines) size r10 dest_asm ≡ p = ground arith in
                  subst (λ x. IsPrepared x) same
                    (record {
                      clean =
                          append-AreEncodable before lines clean
                            (Encodes-lines (moves src src_size register_10 src_size) lines f);
                      apart = rw (reg_to_asm-plain register_10 size g) refl;
                    }))
          ]
        ]
      ]

  prepare_instr-IsPrepared :
      (src : String) (src_size : ℕ) (dest : String) (dest_size : ℕ) {p : Prepared}
      → prepare_instr context move src src_size dest dest_size ≡ some p
      → IsPrepared p
  unfolding prepare_instr
  prepare_instr-IsPrepared src src_size dest dest_size {p = p} h =
      elim (Option-cases (widen move src src_size register_10)) [
        | inl e ↦ absurd (ground arith)
        | inr ((before, src'), e) ↦ elim (Option-cases (widen move dest dest_size register_11)) [
          | inl f ↦ absurd (ground arith)
          | inr ((before', dest'), f) ↦ elim (Option-cases (to_assembly context src' src_size)) [
            | inl g ↦ absurd (ground arith)
            | inr (src_asm, g) ↦ elim (Option-cases (to_assembly context dest' dest_size)) [
              | inl k ↦ absurd (ground arith)
              | inr (dest_asm, k) ↦
                  spill-IsPrepared (append before before') src' src_size
                    (max_size src_size dest_size) src_asm dest_asm
                    (append-AreEncodable before before'
                      (widen-AreEncodable src src_size register_10 e)
                      (widen-AreEncodable dest dest_size register_11 f))
                    (ground arith)
            ]
          ]
        ]
      ]

module _ (context : Context) where
  -- The line behind the operands that `prepareInstr` returns.
  after_prepare-Encodes :
      (prepared : Option Prepared) (mnemonic : Prepared → Option String)
      → ((p : Prepared) → prepared ≡ some p → IsPrepared p)
      → Encodes (prepared >>= λ p. with_operands context (mnemonic p) p)
  after_prepare-Encodes none mnemonic h = Encodes-none
  after_prepare-Encodes (some p) mnemonic h =
      with_operands-Encodes context (mnemonic p) p (h p refl)

  move_with-Encodes :
      (fuel : ℕ) (src : String) (src_size : ℕ) (dest : String) (dest_size : ℕ)
      → Encodes (move_with context fuel src src_size dest dest_size)
  unfolding move_with
  move_with-Encodes zero src src_size dest dest_size = Encodes-none
  move_with-Encodes (suc fuel) src src_size dest dest_size =
      after_prepare-Encodes _ (λ p. sized context "mov" p.size)
        (λ p.
          prepare_instr-IsPrepared context (move_with context fuel) (move_with-Encodes fuel) src
            src_size dest dest_size)

  pub write_move-Encodes :
      (src : String) (src_size : ℕ) (dest : String) (dest_size : ℕ)
      → Encodes (write_move context src src_size dest dest_size)
  unfolding write_move
  write_move-Encodes = move_with-Encodes 2

  write-Encodes :
      (mnemonic : Prepared → Option String) (src : String) (src_size : ℕ) (dest : String)
      (dest_size : ℕ)
      → Encodes (
          prepare_instr context (write_move context) src src_size dest dest_size >>= λ p.
          with_operands context (mnemonic p) p)
  write-Encodes mnemonic src src_size dest dest_size = after_prepare-Encodes _ mnemonic (λ p.
      prepare_instr-IsPrepared context (write_move context) write_move-Encodes src src_size dest
        dest_size)

  pub write_add-Encodes :
      (src : String) (src_size : ℕ) (dest : String) (dest_size : ℕ)
      → Encodes (write_add context src src_size dest dest_size)
  unfolding write_add
  write_add-Encodes = write-Encodes (λ p. sized context "add" p.size)

  pub write_sub-Encodes :
      (src : String) (src_size : ℕ) (dest : String) (dest_size : ℕ)
      → Encodes (write_sub context src src_size dest dest_size)
  unfolding write_sub
  write_sub-Encodes = write-Encodes (λ p. sized context "sub" p.size)

  pub write_cmp-Encodes :
      (src : String) (src_size : ℕ) (dest : String) (dest_size : ℕ)
      → Encodes (write_cmp context src src_size dest dest_size)
  unfolding write_cmp
  write_cmp-Encodes = write-Encodes (λ p. some "cmp")
