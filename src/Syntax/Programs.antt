-- ===== src/Syntax/Programs.antt =====
-- CFG.cpp, the constructor of `CFG`: the graph of a program. Its blocks are those with the numbers from
-- 1 to the last number that was given.
use caramel.Prelude.{
  ℕ, zero, suc, ◌==◌, ◌≡◌, refl, ◌⊎◌, inl, inr, subst, Bool, true, false, some, List, [], ◌∷◌, ◌++◌,
  arith, Bool-cases,
}
use caramel.Blocks.Order.{Exits, mem}
use caramel.Graph.{Graph, no_graph, add_basic_block}
use caramel.Graph.Ensured.{Ensured, done, failed, ◌>>=◌, pure_lem}
use caramel.Graph.Extends.{IsGenerated, IsValid}
use caramel.Code.Functions.{add_functions}
use caramel.Lowering.Definition.{function_definition-IsDefined}
use caramel.Syntax.{Function, function_blocks, control_flow_graph}
use caramel.Syntax.Lowerable.{can_lower_program}
use caramel.Syntax.Values.{both}
use caramel.Syntax.Codes.{codes_of-AreCodes}

mem-snoc : (x y : ℕ) (xs : List ℕ) → mem x (xs ++ y ∷ []) ≡ true → (mem x xs ≡ true) ⊎ (y ≡ x)
mem-snoc x y [] h = inr (ground (arith, h))
mem-snoc x y (z ∷ zs) h = elim (Bool-cases (z == x)) [
  | inl e ↦ inl (rw e refl)
  | inr e ↦ elim (mem-snoc x y zs (ground (arith, h, e))) [
    | inl m ↦ inl (ground (arith, m))
    | inr s ↦ inr s
  ]
]

module _ {total : Bool} where
  add_basic_block-IsValid :
      {g : Graph} {id : ℕ}
      → IsValid g
      → IsGenerated g.next_block_number (some id)
      → Ensured total (add_basic_block id) g (λ _ g'. IsValid g')
  unfolding add_basic_block
  add_basic_block-IsValid {g = g} {id = id} v h = done tt _ refl (record {
    closed = v.closed;
    rooted = λ r m. elim (mem-snoc r id g.roots m) [
      | inl p ↦ v.rooted r p
      | inr e ↦ subst (λ k. IsGenerated g.next_block_number (some k)) e h
    ];
  })

  add_functions-IsValid :
      (fs : List Function)
      → (total ≡ true → can_lower_program fs ≡ true)
      → (g : Graph) → IsValid g
      → Ensured total (add_functions (function_blocks fs)) g (λ _ g'. IsValid g')
  unfolding add_functions function_blocks can_lower_program
  add_functions-IsValid [] h g v = pure_lem v
  add_functions-IsValid (f ∷ fs) h g v =
      function_definition-IsDefined f.name f.parameters _
        (codes_of-AreCodes false f.body (λ t. (both _ _ (h t)).0)) g v
      >>= λ x g1 d. add_basic_block-IsValid d.valid d.here >>= λ _ g2 v2.
          add_functions-IsValid fs (λ t. (both _ _ (h t)).1) g2 v2

no_graph-IsValid : IsValid no_graph
no_graph-IsValid = record { closed = λ k. (tt, tt); rooted = λ r m. absurd (cc (m)) }

-- The graph of a program, if the lowering does not fail.
program-Ensured :
    (total : Bool) (fs : List Function)
    → (total ≡ true → can_lower_program fs ≡ true)
    → Ensured total (add_functions (function_blocks fs)) no_graph (λ _ g'. IsValid g')
program-Ensured total fs h = add_functions-IsValid fs h no_graph no_graph-IsValid

-- A program in which every `break` stands in a loop, what is assigned to is an `LValue`, no sequence is
-- empty, every array has elements of some size with their values, and a `for` with blocks for its
-- condition has some for its initialisation: the construction of its graph does not fail, every exit of
-- a block of it is null or one of its blocks, and so is every root.
pub control_flow_graph-IsValid :
    (fs : List Function)
    → can_lower_program fs ≡ true
    → (g : Graph) × (control_flow_graph fs ≡ some g) × IsValid g
unfolding control_flow_graph
control_flow_graph-IsValid fs h = elim (program-Ensured true fs (λ t. h)) [
  | done _ g e v ↦ (g, rw (control_flow_graph, e) refl, v)
  | failed t e ↦ absurd (cc (t))
]

-- The numbers of the blocks.
pub numbers : ℕ → List ℕ
numbers zero = []
numbers (suc n) = suc n ∷ numbers n

abbrev pub exits_in : Graph → Exits
exits_in g b = ((g.blocks b).exit_when_false, (g.blocks b).exit_when_true)
