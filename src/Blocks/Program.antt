-- ===== src/Blocks/Program.antt =====
-- X86_64CFGVisitor.cpp, `generateAssembly`: the lines of all functions of a program.
use caramel.Prelude.{ℕ, String, ◌≡◌, Option, none, some, List, [], ◌∷◌}
use caramel.Cfg.{Frames}
use caramel.X86.{Line, Lines, ◌>>=◌}
use caramel.X86.Operators.{◌⨾◌}
use caramel.X86.Encodable.{
  AreEncodable, Encodes, Encodes-lines, Encodes-some, Encodes-none, Encodes-⨾,
}
use caramel.Blocks.{Block}
use caramel.Blocks.Assembly.{generate_assembly, generate_assembly-Encodes}
use caramel.Blocks.Order.{Exits, Progress, order_from}

-- The blocks by their numbers, and the label of the last block of each function.
module _ (frames : Frames) (blocks : ℕ → Block) (ends : ℕ → Option String) where
  abbrev exits_of : Exits
  exits_of b = ((blocks b).exit_when_false, (blocks b).exit_when_true)

  -- The loop over the blocks of a function, in the order of `Progress`.
  write_blocks : List ℕ → Lines
  write_blocks [] = some []
  write_blocks (b ∷ bs) =
      let rest = write_blocks bs in
      generate_assembly frames (ends (blocks b).function_context) (λ k. (blocks k).label_name)
        (blocks b)
      ⨾ rest

  -- The loop over the root blocks of the functions, which shares the visited blocks. The directives
  -- of the prologue are left out.
  unfoldable pub generate : ℕ → List ℕ → List ℕ → Lines
  unfolding write_blocks
  generate fuel [] visited = some []
  generate fuel (root ∷ roots) visited =
      order_from fuel exits_of (some root) (record { visited = visited; order = [] }) >>= λ p.
      write_blocks p.order ⨾ generate fuel roots p.visited

  write_blocks-Encodes : (bs : List ℕ) → Encodes (write_blocks bs)
  unfolding write_blocks
  write_blocks-Encodes [] = Encodes-some tt
  write_blocks-Encodes (b ∷ bs) =
      Encodes-⨾ _ _ (generate_assembly-Encodes _ _ _ (blocks b)) (write_blocks-Encodes bs)

  behind :
      (ordered : Option Progress) (f : Progress → Lines)
      → ((p : Progress) → Encodes (f p))
      → Encodes (ordered >>= f)
  behind none f h = Encodes-none
  behind (some p) f h = h p

  generate-Encodes : (fuel : ℕ) (roots visited : List ℕ) → Encodes (generate fuel roots visited)
  unfolding generate
  generate-Encodes fuel [] visited = Encodes-some tt
  generate-Encodes fuel (root ∷ roots) visited =
      behind _ _
        (λ p. Encodes-⨾ _ _ (write_blocks-Encodes p.order) (generate-Encodes fuel roots p.visited))

  -- When the functions of a program are written at all, none of the lines of their blocks, those of
  -- the comparisons and the jumps included, has two operands in memory.
  pub generate-AreEncodable :
      (fuel : ℕ) (roots : List ℕ) (lines : List Line)
      → generate fuel roots [] ≡ some lines
      → AreEncodable lines
  generate-AreEncodable fuel roots = Encodes-lines (generate-Encodes fuel roots [])
