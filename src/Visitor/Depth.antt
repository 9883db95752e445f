-- ===== src/Visitor/Depth.antt =====
-- ASTVisitor.cpp, `ContextPusher`: the stack of contexts around a visit.
use caramel.Prelude.{
  ℕ, suc, ◌≡◌, refl, ap, ◌∙◌, String, Bool, lookup, arith, Option-cases, inl, inr, List,
}
use caramel.Symbols.{Node, Symbol}
use caramel.Table.{SymbolTable, root, child, put, modify, expire}
use caramel.Table.Operations.{Operation, Within, here, above}
use caramel.Table.Operations.Change.{Change, written, changed}
use caramel.Table.Operations.Reached.{run-Change}
use caramel.Parse
use caramel.Visitor.{State, done, thrown, pop}
use caramel.Visitor.Holds.{IsNested, Moved, unmoved, operated, done-kept, thrown-kept}
use caramel.Visitor.Declarations.{Item}
use caramel.Visitor.Statements.{visit_statement}
use caramel.Visitor.Programs.{visit_statement-Holds}

-- The number of contexts below the current one.
unfoldable pub depth : SymbolTable → ℕ
depth (root m) = 0
depth (child m parent) = suc (depth parent)

depth-put : (name : String) (s : Symbol) (t : SymbolTable) → depth (put name s t) ≡ depth t
unfolding depth put
depth-put name s (root m) = refl
depth-put name s (child m parent) = refl

depth-modify :
    (name : String) (f : Symbol → Symbol) (t : SymbolTable) → depth (modify name f t) ≡ depth t
unfolding depth modify
depth-modify name f (root m) = elim (Option-cases (lookup name m)) [
  | inl e ↦ ground arith
  | inr (s, e) ↦ ground arith
]
depth-modify name f (child m parent) = elim (Option-cases (lookup name m)) [
  | inl e ↦ ground (arith, depth-modify name f parent)
  | inr (s, e) ↦ ground arith
]

depth-expire : (dead : Node → Bool) (t : SymbolTable) → depth (expire dead t) ≡ depth t
unfolding depth expire
depth-expire dead (root m) = refl
depth-expire dead (child m parent) = ap (λ n. suc n) (depth-expire dead parent)

depth-Change : {t u : SymbolTable} → Change t u → depth u ≡ depth t
depth-Change {t} (written name s filed e) = ap (λ x. depth x) e ∙ depth-put name s t
depth-Change {t} (changed name f keeps e) = ap (λ x. depth x) e ∙ depth-modify name f t

depth-Within : {op : Operation} {t u : SymbolTable} → Within op t u → depth u ≡ depth t
unfolding depth
depth-Within {op} (here {t = t} h) = depth-Change (run-Change op t h)
depth-Within (above w) = ap (λ n. suc n) (depth-Within w)

depth-Moved : {t u : SymbolTable} → Moved t u → depth u ≡ depth t
depth-Moved unmoved = refl
depth-Moved (operated op w) = depth-Within w

depth-pop : (t : SymbolTable) (d : ℕ) → depth t ≡ suc d → depth (pop t) ≡ d
unfolding depth
depth-pop (root m) d h = absurd (omega arith)
depth-pop (child m parent) d h = omega arith

-- `d` contexts lie below the current one.
abbrev HasDepth : ℕ → State → Type 0
HasDepth d s = depth s.table ≡ d

HasDepth-IsNested : IsNested HasDepth
unfolding depth
HasDepth-IsNested = record {
  kept = λ d. record {
    counts_nodes = λ s h. h;
    counts_errors = λ s h. h;
    destroys = λ s dead h. depth-expire dead s.table ∙ h;
    keeps = λ s first h. h;
    moves = λ s u m h. depth-Moved m ∙ h;
  };
  enters = λ d s h. ap (λ n. suc n) h;
  leaves = λ d s h. depth-pop s.table d h;
}

-- The visit of a statement, which may be a whole function, leaves as many contexts on
-- the stack as it found, whether it returns or throws.
pub depth-visit_statement :
    (left_first : Bool) (statement : Parse.Statement) (s : State)
    → ((items : List Item) (s' : State)
        → visit_statement left_first statement s ≡ done items s'
        → depth s'.table ≡ depth s.table)
      × ((s' : State)
          → visit_statement left_first statement s ≡ thrown s'
          → depth s'.table ≡ depth s.table)
depth-visit_statement left_first statement s =
    let p =
      (visit_statement-Holds HasDepth-IsNested left_first (depth s.table) statement).holds s refl in
    (done-kept p, thrown-kept p)
