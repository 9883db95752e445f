-- ===== src/Visitor/Reached.antt =====
-- src/visitors and the symbol table: what `Reach` says of a chain is kept by a visit.
use caramel.Prelude.{refl}
use caramel.Table.{SymbolTable, root, child}
use caramel.Table.Operations.{Reach, around, enter, leave, destroy}
use caramel.Visitor.{pop}
use caramel.Visitor.Holds.{IsNested, Moved, unmoved, operated}

moved-Reach : {t u : SymbolTable} → Moved t u → Reach t → Reach u
moved-Reach unmoved r = r
moved-Reach (operated op w) r = around r op w

popped-Reach : (t : SymbolTable) → Reach t → Reach (pop t)
popped-Reach (root m) r = r
popped-Reach (child m parent) r = leave r refl

pub reached-IsNested : IsNested (λ _ s. Reach s.table)
reached-IsNested = record {
  kept = λ d. record {
    counts_nodes = λ s r. r;
    counts_errors = λ s r. r;
    destroys = λ s dead r. destroy r dead;
    keeps = λ s first r. r;
    moves = λ s u m r. moved-Reach m r;
  };
  enters = λ d s r. enter r;
  leaves = λ d s r. popped-Reach s.table r;
}
