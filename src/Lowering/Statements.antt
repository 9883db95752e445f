-- ===== src/Lowering/Statements.antt =====
-- src/ast/statements/definition, src/ast/statements/jumps: definitions and jumps keep a valid graph
-- valid.
use caramel.Prelude.{
  ap, ◌⊎◌, inl, inr, zero, ◌==◌, Bool-cases, ℕ, suc, ◌-◌, ltb, ◌≡◌, refl, Bool, true, false, String,
  Option, none, some, List, [], ◌∷◌, All, arith, is_some,
}
use caramel.Types.{PrimaryType, memory_length}
use caramel.Cfg.{Frames, has_symbol, add_symbol, add_elements, element_name, add_array_symbol}
use caramel.Graph.{top_of, Graph, current_control_block_end}
use caramel.Graph.Ensured.{Ensured, done, failed, ◌>>=◌, pure_lem, weaken}
use caramel.Graph.Extends.{IsRooted-≤, IsValid, IsGenerated, Moves, Moves-refl, Moves-trans}
use caramel.Graph.Operations.{add_to-Moves}
use caramel.Code.{Value}
use caramel.Code.Statements.{
  initializer, variable_definition_ir, add_array, fill, array_definition_ir, return_ir, break_ir,
}
use caramel.Lowering.{is_cons, IsIr, IsStatementIr, IsValue, added-Moves, may_fail, option_cases}
use caramel.Lowering.Atoms.{constant-IsValue}

-- An optional expression.
abbrev pub IsOptional : Bool → Option Value → Type 0
IsOptional total none = Unit {0}
IsOptional total (some e) = IsValue total e

add_symbol-found :
    (frames : Frames) (id : ℕ) (name : String) (type : PrimaryType)
    → ltb 0 (memory_length type) ≡ true
    → is_some (add_symbol frames id name type) ≡ true
unfolding add_symbol
add_symbol-found frames id name type h = elim (Bool-cases (has_symbol frames id name)) [
  | inl e ↦ rw e refl
  | inr e ↦ rw (e, sized (memory_length type) h) refl
]
  where
    sized : (n : ℕ) → ltb 0 n ≡ true → (n == 0) ≡ false
    sized n h = ground arith

add_elements-found :
    (frames : Frames) (id : ℕ) (name : String) (type : PrimaryType) (ip : ℕ)
    → ltb 0 (memory_length type) ≡ true
    → is_some (add_elements frames id name type ip) ≡ true
unfolding add_elements
add_elements-found frames id name type zero h = refl
add_elements-found frames id name type (suc ip) h =
    let found = add_symbol-found frames id (element_name name (suc ip)) type h in
    elim (option_cases (add_symbol frames id (element_name name (suc ip)) type)) [
      | inl ((index, frames'), e) ↦ rw e (add_elements-found frames' id name type ip h)
      | inr e ↦ absurd (cc (ap is_some e, found))
    ]

add_array_symbol-found :
    (frames : Frames) (id : ℕ) (name : String) (type : PrimaryType) (size : ℕ)
    → ltb 0 (memory_length type) ≡ true
    → ltb 0 size ≡ true
    → is_some (add_array_symbol frames id name type size) ≡ true
unfolding add_array_symbol
add_array_symbol-found frames id name type zero h p = absurd (cc (p))
add_array_symbol-found frames id name type (suc last) h p =
    let found = add_elements-found frames id name type last h in
    elim (option_cases (add_elements frames id name type last)) [
      | inl (frames', e) ↦ rw e (add_symbol-found frames' id name type h)
      | inr e ↦ absurd (cc (ap is_some e, found))
    ]

abbrev pub contents : Option (List Value) → List Value
contents none = []
contents (some es) = es

top_of-none : (ends : List ℕ) → top_of ends ≡ none → is_cons ends ≡ false
unfolding top_of
top_of-none [] e = refl
top_of-none (id ∷ ids) e = absurd (cc (e))

module _ {total : Bool} where
  initializer-IsValue :
      (init : Option Value) → IsOptional total init → IsValue total (initializer init)
  unfolding initializer
  initializer-IsValue none h = constant-IsValue _
  initializer-IsValue (some e) h = h

  pub variable_definition_ir-IsIr :
      (name : String) (type : PrimaryType) (init : Option Value)
      → IsOptional total init
      → IsIr total (variable_definition_ir name type init)
  unfolding variable_definition_ir
  variable_definition_ir-IsIr name type init o g b v h =
      let i = initializer-IsValue init o in added-Moves i.ir v h >>= λ x g1 m1. pure_lem m1

  pub return_ir-IsIr : (e : Option Value) → IsOptional total e → IsIr total (return_ir e)
  unfolding return_ir
  return_ir-IsIr none o g b v h = pure_lem (Moves-refl v h)
  return_ir-IsIr (some e) o g b v h = added-Moves o.ir v h >>= λ x g1 m1. pure_lem m1

  fill-Moves :
      (name : String) (type : PrimaryType) (size : ℕ) (es : List Value)
      → All (IsValue total) es
      → (g : Graph) (b : ℕ) → IsValid g
      → IsGenerated g.next_block_number (some b)
      → Ensured total (fill name type size es b) g (λ b' g'. Moves g b g' b')
  unfolding fill
  fill-Moves name type size [] all g b v h = pure_lem (Moves-refl v h)
  fill-Moves name type size (e ∷ es) (i, all) g b v h = added-Moves i.ir v h >>= λ x g1 m1.
      add_to-Moves m1.valid _ m1.here >>= λ y g2 m2.
      weaken (fill-Moves name type (size - 1) es all g2 x.1 m2.valid m2.here)
        (λ b' g3 m3. Moves-trans m1 (Moves-trans m2 m3))

  add_array-Moves :
      {g : Graph} {b : ℕ} (name : String) (type : PrimaryType) (size : ℕ)
      → IsValid g
      → IsGenerated g.next_block_number (some b)
      → (total ≡ true → ltb 0 (memory_length type) ≡ true)
      → (total ≡ true → ltb 0 size ≡ true)
      → Ensured total (add_array b name type size) g (λ _ g'. Moves g b g' b)
  unfolding add_array
  add_array-Moves {g = g} {b = b} name type size v h s z =
      elim (option_cases (add_array_symbol g.frames (g.blocks b).function_context name type size)) [
        | inl ((index, frames'), e) ↦
            done tt (record g { frames = frames' }) (rw (add_array, e) refl)
              (record {
                grows = omega arith;
                here = h;
                from = inl refl;
                kept = λ k l n. refl;
                when_true = refl;
                when_false = refl;
                valid = record { closed = v.closed; rooted = IsRooted-≤ _ (omega arith) v.rooted };
                ends = refl;
                context = refl;
              })
        | inr e ↦
            failed
              (may_fail (λ t. add_array_symbol-found g.frames _ name type size (s t) (z t))
                (ap is_some e))
              (rw (add_array, e) refl)
      ]

  pub array_definition_ir-IsIr :
      (name : String) (type : PrimaryType) (size : ℕ) (content : Option (List Value))
      → All (IsValue total) (contents content)
      → (total ≡ true → is_some content ≡ true)
      → (total ≡ true → ltb 0 (memory_length type) ≡ true)
      → (total ≡ true → ltb 0 size ≡ true)
      → IsIr total (array_definition_ir name type size content)
  unfolding array_definition_ir
  array_definition_ir-IsIr name type size none all c s z g b v h = failed (may_fail c refl) refl
  array_definition_ir-IsIr name type size (some es) all c s z g b v h =
      add_array-Moves name type size v h s z >>= λ _ g1 m1.
      fill-Moves name type size es all g1 b m1.valid m1.here >>= λ b' g2 m2.
      pure_lem (Moves-trans m1 m2)

  -- A jump takes the label of the innermost loop around.
  pub break_ir-IsStatementIr :
      (inside : Bool) → (total ≡ true → inside ≡ true) → IsStatementIr total inside break_ir
  unfolding break_ir
  break_ir-IsStatementIr inside s g b v h ends =
      label (option_cases (top_of g.control_block_ends)) >>= λ l g1 m1. pure_lem m1
    where
      label :
          ((id : ℕ) × (top_of g.control_block_ends ≡ some id))
            ⊎ (top_of g.control_block_ends ≡ none)
          → Ensured total current_control_block_end g (λ _ g'. Moves g b g' b)
      label (inl (id, e)) =
          done (g.blocks id).label_name g (rw (current_control_block_end, e) refl) (Moves-refl v h)
      label (inr e) =
          failed (may_fail (λ t. ends (s t)) (top_of-none g.control_block_ends e))
            (rw (current_control_block_end, e) refl)
