-- ===== src/Visitor/Arrays.antt =====
-- ASTVisitor_Arrays.cpp: what the visits of arrays return, and what they keep.
use caramel.Prelude.{
  ltb, is_some, length, if◌then◌else◌, ℕ, zero, suc, ◌≡◌, refl, Bool, true, false, Option, none,
  some, String, [], ◌∷◌, ◌++◌, arith,
}
use caramel.Types.{PrimaryType}
use caramel.Prelude.Int.{pos}
use caramel.Symbols.{Details, variable, array, function, type_alias}
use caramel.Table.Operations.{declare_array, define_array, run}
use caramel.Table.Arrays.{add_array_declaration, add_array_definition}
use caramel.Parse.{Trees, no_tree, trees, ArrayInner}
use caramel.Syntax.{constant, Expressions, no_expression, expressions, array_definition}
use caramel.Syntax.Lowerable.{can_lower, is_lowerable, are_lowerable, is_lowerable_content}
use caramel.Visitor.{State, stop, pure}
use caramel.Visitor.Holds.{
  Holds, IsKept, ◌>>=◌, pure_lem, stop_lem, new_node-Holds, last_node-Holds, operation-Holds,
  Anything, deref-Holds,
}
use caramel.Visitor.Declarations.{
  statement, missing, visit_size, visit_array_declaration, visit_array_block, visit_content,
  default_constants, append_expressions, visit_array_definition, content_of, size_of, Content,
}
use caramel.Visitor.Expressions.{stoll}
use caramel.Visitor.Shapes.{is_sound, are_sound}
use caramel.Visitor.Trees.{visit_expression-Holds}
use caramel.Visitor.Conditions.{LowersItems, one-LowersItems, are_sound_optional, has_sized_arrays}
use caramel.Visitor.Variables.{declaration-LowersItems, visit_type_parameter-Holds}

zero-is_lowerable : is_lowerable (constant (pos 0)) ≡ true
unfolding is_lowerable
zero-is_lowerable = refl

append_expressions-are_lowerable :
    (es fs : Expressions)
    → are_lowerable es ≡ true
    → are_lowerable fs ≡ true
    → are_lowerable (append_expressions es fs) ≡ true
unfolding append_expressions is_lowerable
append_expressions-are_lowerable no_expression fs h g = g
append_expressions-are_lowerable (expressions e es) fs h g =
    ground (arith, append_expressions-are_lowerable es fs (ground arith) g)

content-is_lowerable :
    (d : Details) (es : Expressions)
    → are_lowerable es ≡ true
    → is_some (content_of d es) ≡ true
    → is_lowerable_content (content_of d es) ≡ true
unfolding is_lowerable_content
content-is_lowerable (array size (some content)) es h s = h
content-is_lowerable (array size none) es h s = absurd (cc (s))
content-is_lowerable variable es h s = absurd (cc (s))
content-is_lowerable (function context variadic parameters) es h s = absurd (cc (s))
content-is_lowerable (type_alias defined) es h s = absurd (cc (s))

array-LowersItems :
    {p : Bool → Bool} (name : String) (type : PrimaryType) (size : ℕ) (d : Details)
    (es : Expressions)
    → ((inside : Bool) → p inside ≡ true → are_lowerable es ≡ true)
    → LowersItems p (statement (array_definition name type size (content_of d es)) ∷ [])
unfolding can_lower has_sized_arrays
array-LowersItems name type size d es h = one-LowersItems (record {
  lowers = λ inside s a. ground (arith, content-is_lowerable d es (h inside s) (ground arith));
})

module _ {I : State → Type 0} (k : IsKept I) where
  visit_size-Holds : (size : Option ℕ) → Holds I Anything (visit_size size)
  unfolding visit_size
  visit_size-Holds none = pure_lem tt
  visit_size-Holds (some n) = deref-Holds {P = Anything} (stoll false n) (λ _ _. tt) >>= λ _ _.
      new_node-Holds k >>= λ _ _. pure_lem tt

  pub visit_array_declaration-Holds :
      {p : Bool → Bool} (inner : ArrayInner)
      → Holds I (LowersItems p) (visit_array_declaration inner)
  unfolding visit_array_declaration run
  visit_array_declaration-Holds inner = visit_type_parameter-Holds k inner.type >>= λ type _.
      visit_size-Holds inner.size >>= λ size _. new_node-Holds k >>= λ node _.
      deref-Holds {P = Anything} type (λ _ _. tt) >>= λ q _.
      operation-Holds k (add_array_declaration q.type inner.name size node)
        (declare_array q.type inner.name size node) (λ t. refl)
      >>= λ _ _. pure_lem declaration-LowersItems

  default_constants-Holds : (n : ℕ) → Holds I (λ c. are_lowerable c.0 ≡ true) (default_constants n)
  unfolding default_constants is_lowerable
  default_constants-Holds zero = pure_lem refl
  default_constants-Holds (suc n) = new_node-Holds k >>= λ node _.
      default_constants-Holds n >>= λ (es, nodes) h. pure_lem (ground (arith, zero-is_lowerable))

  module _ (left_first : Bool) where
    visit_array_block-Holds :
        (ts : Trees)
        → Holds I
            (λ c. are_sound ts ≡ true → are_lowerable c.0 ≡ true)
            (visit_array_block left_first ts)
    unfolding visit_array_block is_sound is_lowerable
    visit_array_block-Holds no_tree = pure_lem (λ _. refl)
    visit_array_block-Holds (trees t ts) = visit_expression-Holds k left_first t >>= λ e m.
        last_node-Holds >>= λ node _. visit_array_block-Holds ts >>= λ (es, nodes) n.
        pure_lem (λ s. ground (arith, m.lowers (ground arith), n (ground arith)))

    too_many-Holds :
        {P : Content → Type 0} (b : Bool) (c : Content)
        → P c
        → Holds I P (if b then stop else pure c)
    too_many-Holds true c h = stop_lem
    too_many-Holds false c h = pure_lem h

    visit_content-Holds :
        (size : Option ℕ) (elements : Option Trees)
        → Holds I
            (λ c. are_sound_optional elements ≡ true → are_lowerable c.0 ≡ true)
            (visit_content left_first size elements)
    unfolding visit_content is_lowerable
    visit_content-Holds none none = pure_lem (λ _. refl)
    visit_content-Holds (some size) none = pure_lem (λ _. refl)
    visit_content-Holds none (some ts) = visit_array_block-Holds ts
    visit_content-Holds (some size) (some ts) = visit_array_block-Holds ts >>= λ (es, nodes) h.
        too_many-Holds (ltb size (length nodes)) (es, nodes) h

    pub visit_array_definition-Holds :
        (inner : ArrayInner) (elements : Option Trees)
        → Holds I
            (LowersItems (λ _. are_sound_optional elements))
            (visit_array_definition left_first inner elements)
    unfolding visit_array_definition run
    visit_array_definition-Holds inner elements =
        visit_type_parameter-Holds k inner.type >>= λ type _.
        visit_size-Holds inner.size >>= λ size _.
        visit_content-Holds size elements >>= λ (es, nodes) h.
        default_constants-Holds (missing size (length nodes)) >>= λ (zeros, zero_nodes) g.
        new_node-Holds k >>= λ node _. deref-Holds {P = Anything} type (λ _ _. tt) >>= λ q _.
        operation-Holds k (add_array_definition q.type inner.name (nodes ++ zero_nodes) node)
          (define_array q.type inner.name (nodes ++ zero_nodes) node) (λ t. refl)
        >>= λ s _. pure_lem (
            array-LowersItems s.name s.type (size_of s.details) s.details
              (append_expressions es zeros)
              (λ _ a. append_expressions-are_lowerable es zeros (h a) g))
