-- ===== src/X86/Plain.antt =====
-- X86_64IRVisitor.cpp: the operands that are not in memory.
use caramel.Prelude.{
  ap, ℕ, ◌==◌, ◌≡◌, refl, String, str_eq, Bool, true, false, ◌&&◌, not, some, List, [], ◌∷◌, lookup,
  arith, Bool-cases, Option-cases, inl, inr,
}
use caramel.X86.{Context, at_size, registers, reg_to_asm, is_register, to_assembly}
use caramel.X86.Move.{is_memory}

-- No text of the table of registers is an operand in memory.
plain_row : List (ℕ × String) → Bool
plain_row [] = true
plain_row ((size, name) ∷ rest) = not (is_memory name) && plain_row rest

plain_table : List (String × List (ℕ × String)) → Bool
plain_table [] = true
plain_table ((register, row) ∷ rest) = plain_row row && plain_table rest

registers-plain : plain_table registers ≡ true
unfolding plain_table plain_row is_memory
registers-plain = refl

at_size-plain :
    (size : ℕ) (row : List (ℕ × String)) {name : String}
    → plain_row row ≡ true
    → at_size size row ≡ some name
    → is_memory name ≡ false
unfolding plain_row at_size
at_size-plain size [] p h = absurd (cc)
at_size-plain size ((k, text) ∷ rest) {name = name} p h = elim (Bool-cases (k == size)) [
  | inl e ↦ (let same : text ≡ name = ground arith in ground (arith, ap is_memory same))
  | inr e ↦ at_size-plain size rest (ground arith) (ground arith)
]

lookup-plain :
    (register : String) (table : List (String × List (ℕ × String))) {row : List (ℕ × String)}
    → plain_table table ≡ true
    → lookup register table ≡ some row
    → plain_row row ≡ true
unfolding plain_table lookup
lookup-plain register [] p h = absurd (cc)
lookup-plain register ((r, cells) ∷ rest) {row = row} p h = elim (Bool-cases (str_eq r register)) [
  | inl e ↦ (let same : cells ≡ row = ground arith in ground (arith, ap plain_row same))
  | inr e ↦ lookup-plain register rest (ground arith) (ground arith)
]

pub reg_to_asm-plain :
    (register : String) (size : ℕ) {name : String}
    → reg_to_asm register size ≡ some name
    → is_memory name ≡ false
unfolding reg_to_asm
reg_to_asm-plain register size h = elim (Option-cases (lookup register registers)) [
  | inl e ↦ absurd (ground arith)
  | inr (row, e) ↦
      at_size-plain size row (lookup-plain register registers registers-plain e) (ground arith)
]

-- A symbol that begins with '%' is written as a register, or not at all.
pub to_assembly-plain :
    (context : Context) (symbol : String) (size : ℕ) {asm : String}
    → is_register symbol ≡ true
    → to_assembly context symbol size ≡ some asm
    → is_memory asm ≡ false
unfolding to_assembly
to_assembly-plain context symbol size r h = reg_to_asm-plain symbol size (ground arith)
