-- ===== src/Lowering.antt =====
-- src/ast/statements: what the code of a statement does to a valid graph.
pub mod Operators
pub mod Assignments
pub mod Atoms
pub mod Logic
pub mod ShortCircuit
pub mod Current
pub mod Statements
pub mod Control
pub mod Blocks
pub mod Loops
pub mod For
pub mod Functions
pub mod Definition
use caramel.Prelude.{
  refl, Option, ◌⊎◌, inr, ℕ, ◌≤◌, ◌<◌, ◌≡◌, inl, Bool, true, false, String, none, some, List, [],
  ◌∷◌, arith,
}
use caramel.Types.{PrimaryType}
use caramel.Graph.{Graph}
use caramel.Graph.Ensured.{Ensured, ◌>>=◌, pure_lem}
use caramel.Graph.Extends.{IsGenerated, IsValid, Extends, Moves, Moves-trans, IsFree}
use caramel.Graph.Operations.{add_to-Moves}
use caramel.Code.{GetIr, GetBasicBlock, Code, Value, array_access, safe_add_instruction}

abbrev pub is_cons : {A : Type 0} → List A → Bool
is_cons [] = false
is_cons (a ∷ rest) = true

-- Whether there is a loop around.

abbrev pub HasEnd : Bool → Graph → Type 0
HasEnd inside g = inside ≡ true → is_cons g.control_block_ends ≡ true

-- Blocks that are generated, with the first and the last of them, which has no exits yet.
pub record Builds (g : Graph) (first last : ℕ) (g' : Graph) : Type 0 where
  pub extends : Extends g.next_block_number g.next_block_number g g'
  pub first_new : g.next_block_number < first
  pub first_generated : first ≤ g'.next_block_number
  pub last_new : g.next_block_number < last
  pub last_generated : last ≤ g'.next_block_number
  pub no_when_true : (g'.blocks last).exit_when_true ≡ none
  pub no_when_false : (g'.blocks last).exit_when_false ≡ none

module _ {low pinned first last : ℕ} {g g' : Graph} (b : Builds g first last g') where
  pub Builds-Extends : Extends low pinned g g'
  Builds-Extends = record {
    grows = b.extends.grows;
    kept = λ k h p. b.extends.kept k h (inl h);
    valid = b.extends.valid;
    ends = b.extends.ends;
    context = b.extends.context;
  }

  module _ (l : low ≤ g.next_block_number) (p : pinned ≤ g.next_block_number) where
    pub first-IsFree : IsFree low pinned g'.next_block_number first
    first-IsFree = record {
      above = omega (arith, l, b.first_new);
      other = λ e. omega (arith, p, b.first_new, e);
      generated = b.first_generated;
      low_generated = omega (arith, l, b.extends.grows);
      pinned_generated = omega (arith, p, b.extends.grows);
    }

    pub last-IsFree : IsFree low pinned g'.next_block_number last
    last-IsFree = record {
      above = omega (arith, l, b.last_new);
      other = λ e. omega (arith, p, b.last_new, e);
      generated = b.last_generated;
      low_generated = omega (arith, l, b.extends.grows);
      pinned_generated = omega (arith, p, b.extends.grows);
    }

-- `total` says that the code does not fail, `inside` that it stands in a loop.
module _ (total : Bool) where
  abbrev pub IsIr : GetIr → Type 0
  IsIr get =
      (g : Graph) (b : ℕ)
      → IsValid g
      → IsGenerated g.next_block_number (some b)
      → Ensured total (get b) g (λ x g'. Moves g b g' x.1)

  -- An expression: its instruction, its blocks where it returns none, and the index of an access.
  pub record IsValue (e : Value) : Type 0 where
    pub ir : IsIr e.code.get_ir
    pub blocks :
        e.code.should_return_an_ir ≡ false
        → (g : Graph) → IsValid g
        → Ensured total e.code.get_basic_block g (λ x g'. Builds g x.0 x.1 g')
    pub unbuilt : e.code.should_return_an_ir ≡ true → (g : Graph) → e.code.get_basic_block g ≡ none
    pub index :
        (name : String) (type : PrimaryType) (get : GetIr)
        → e.lvalue ≡ some (name, array_access type get)
        → IsIr get

  module _ (inside : Bool) where
    abbrev pub IsStatementIr : GetIr → Type 0
    IsStatementIr get =
        (g : Graph) (b : ℕ)
        → IsValid g
        → IsGenerated g.next_block_number (some b)
        → HasEnd inside g
        → Ensured total (get b) g (λ x g'. Moves g b g' x.1)

    abbrev pub IsBuilt : GetBasicBlock → Type 0
    IsBuilt get =
        (g : Graph)
        → IsValid g
        → HasEnd inside g
        → Ensured total get g (λ x g'. Builds g x.0 x.1 g')

    pub record IsCode (c : Code) : Type 0 where
      pub ir : c.should_return_an_ir ≡ true → IsStatementIr c.get_ir
      pub blocks :
          c.should_return_an_ir ≡ false
          → c.should_return_a_basic_block ≡ true
          → IsBuilt c.get_basic_block

    pub IsValue-IsCode : (e : Value) → IsValue e → IsCode e.code
    IsValue-IsCode e v = record {
      ir = λ _ g b h i _. v.ir g b h i;
      blocks = λ n _ g h _. v.blocks n g h;
    }

module _ {total : Bool} {g : Graph} where
  pub safe_add_instruction-Moves :
      (get : GetIr) (b : ℕ)
      → Ensured total (get b) g (λ x g'. Moves g b g' x.1)
      → Ensured total (safe_add_instruction get b) g (λ x g'. Moves g b g' x.1)
  unfolding safe_add_instruction
  safe_add_instruction-Moves get b h =
      h >>= λ x g' m. add_to-Moves m.valid x.0 m.here >>= λ name g'' n. pure_lem (Moves-trans m n)

-- A part may fail where a condition of it does not hold.
pub may_fail : {total c : Bool} → (total ≡ true → c ≡ true) → c ≡ false → total ≡ false
may_fail {total = true} h e = absurd (cc (h refl, e))
may_fail {total = false} h e = refl

pub option_cases : {A : Type 0} (x : Option A) → ((a : A) × (x ≡ some a)) ⊎ (x ≡ none)
option_cases none = inr refl
option_cases (some a) = inl (a, refl)

module _ {total : Bool} {get : GetIr} (i : IsIr total get) {g : Graph} {b : ℕ} where
  pub added-Moves :
      IsValid g
      → IsGenerated g.next_block_number (some b)
      → Ensured total (safe_add_instruction get b) g (λ x g'. Moves g b g' x.1)
  added-Moves v h = safe_add_instruction-Moves get b (i g b v h)
