-- ===== src/Blocks/Order.antt =====
-- src/ir/x86_64/X86_64CFGVisitor.cpp: the order in which the blocks of a function are written. A block
-- is its number; the exits of each block stand for `getNextWhenFalse` and `getNextWhenTrue`.
pub mod Unvisited
pub mod Once
pub mod Reached
use caramel.Prelude.{
  ℕ, zero, suc, ◌==◌, Bool, true, false, ◌||◌, Option, none, some, List, [], ◌∷◌, if◌then◌else◌,
}
use caramel.X86.{◌>>=◌}

abbrev pub Exits : Type 0
Exits = ℕ → Option ℕ × Option ℕ

-- `mVisitedBB`, and the blocks of `mOrders` from the last to the first, as the loop over `rbegin`
-- writes them.
pub record Progress : Type 0 where
  pub visited : List ℕ
  pub order : List ℕ

abbrev pub mem : ℕ → List ℕ → Bool
mem x [] = false
mem x (y ∷ ys) = (y == x) || mem x ys

-- The recursive `generateAssembly` from a block, or from no block; `none` is that the fuel ran out.
unfoldable pub order_from : ℕ → Exits → Option ℕ → Progress → Option Progress
order_from zero exits block p = none
order_from (suc fuel) exits none p = some p
order_from (suc fuel) exits (some b) p =
    let below = order_from fuel exits (exits b).0 (record p { visited = b ∷ p.visited }) >>= λ p'.
    order_from fuel exits (exits b).1 p' >>= λ p''. some (record p'' { order = b ∷ p''.order }) in
    if mem b p.visited then some p else below
