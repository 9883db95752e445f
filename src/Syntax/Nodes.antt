-- ===== src/Syntax/Nodes.antt =====
-- Statement.h, `getIR` and `getBasicBlock`: what the code of one node does to the graph.
use caramel.Prelude.{ℕ, ◌≤◌, ◌<◌, ◌≡◌, ◌≢◌, ◌⊎◌, Bool, true, false, none, some, inl}
use caramel.Ir.{Instruction}
use caramel.Graph.{Graph}
use caramel.Graph.Ensured.{done, failed}
use caramel.Graph.Extends.{IsValid}
use caramel.Lowering.{is_cons}
use caramel.Syntax.{Expression, value_of, Statement, code_of}
use caramel.Syntax.Lowerable.{is_lowerable, can_lower}
use caramel.Syntax.Values.{value_of-IsValue}
use caramel.Syntax.Codes.{code_of-IsCode}

-- For a lowerable expression, a graph whose exits and roots are blocks of it, and a block of it: `getIR`
-- returns an instruction; the block that is current then is the same, or a new one, and leads where the
-- block led; no other block that was there is changed; and the stack of the loops around is as it was.
pub value_of-get_ir :
    (e : Expression) (g : Graph) (b : ℕ)
    → is_lowerable e ≡ true
    → IsValid g
    → (0 < b) × (b ≤ g.next_block_number)
    → (i : Instruction) × (b' : ℕ) × (g' : Graph) × ((value_of e).code.get_ir b g
        ≡ some ((i, b'), g'))
      × ((b' ≡ b) ⊎ (g.next_block_number < b'))
      × ((g'.blocks b').exit_when_true ≡ (g.blocks b).exit_when_true)
      × ((g'.blocks b').exit_when_false ≡ (g.blocks b).exit_when_false)
      × ((k : ℕ) → k ≤ g.next_block_number → k ≢ b → g'.blocks k ≡ g.blocks k)
      × (g'.control_block_ends ≡ g.control_block_ends)
value_of-get_ir e g b h v l = elim ((value_of-IsValue {total = true} e (λ t. h)).ir g b v l) [
  | done (i, b') g' ran m ↦ (i, b', g', ran, m.from, m.when_true, m.when_false, m.kept, m.ends)
  | failed t ran ↦ absurd (cc (t))
]

-- For a lowerable statement of blocks, in a loop where it has to be, and a graph whose exits and roots
-- are blocks of it: `getBasicBlock` returns two new blocks, the last of which has no exits yet, no block
-- that was there is changed, and the stack of the loops around is as it was.
pub code_of-get_basic_block :
    (inside : Bool) (s : Statement) (g : Graph)
    → can_lower inside s ≡ true
    → (code_of s).should_return_an_ir ≡ false
    → (code_of s).should_return_a_basic_block ≡ true
    → IsValid g
    → (inside ≡ true → is_cons g.control_block_ends ≡ true)
    → (first last : ℕ) × (g' : Graph) × ((code_of s).get_basic_block g ≡ some ((first, last), g'))
      × (g.next_block_number < first)
      × (g.next_block_number < last)
      × ((g'.blocks last).exit_when_true ≡ none)
      × ((g'.blocks last).exit_when_false ≡ none)
      × ((k : ℕ) → k ≤ g.next_block_number → g'.blocks k ≡ g.blocks k)
      × (g'.control_block_ends ≡ g.control_block_ends)
code_of-get_basic_block inside s g h n y v ends =
    elim ((code_of-IsCode {total = true} inside s (λ t. h)).blocks n y g v ends) [
      | done (first, last) g' ran b ↦ (
        first,
        last,
        g',
        ran,
        b.first_new,
        b.last_new,
        b.no_when_true,
        b.no_when_false,
        λ k l. b.extends.kept k l (inl l),
        b.extends.ends,
      )
      | failed t ran ↦ absurd (cc (t))
    ]
