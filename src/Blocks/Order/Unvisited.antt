-- ===== src/Blocks/Order/Unvisited.antt =====
-- X86_64CFGVisitor.cpp: the lists of blocks that are visited and written.
use caramel.Prelude.{
  ℕ, ◌+◌, ◌≤◌, ◌<◌, ◌==◌, ◌≡◌, refl, inl, inr, Bool, true, false, ◌&&◌, not, Option, none, some,
  List, [], ◌∷◌, length, arith, Bool-cases, if◌then◌else◌,
}
use caramel.Blocks.Order.{mem}

-- No number occurs twice.
abbrev pub unique : List ℕ → Bool
unique [] = true
unique (x ∷ xs) = not (mem x xs) && unique xs

-- No block, or a block of the list.
abbrev pub has_exit : List ℕ → Option ℕ → Bool
has_exit xs none = true
has_exit xs (some b) = mem b xs

-- The blocks of the list that are not visited.
unfoldable pub unvisited : List ℕ → List ℕ → ℕ
unvisited [] visited = 0
unvisited (u ∷ us) visited = (if mem u visited then 0 else 1) + unvisited us visited

pub unvisited_mono :
    (us v w : List ℕ)
    → ((x : ℕ) → mem x v ≡ true → mem x w ≡ true)
    → unvisited us w ≤ unvisited us v
unfolding unvisited
unvisited_mono [] v w h = omega arith
unvisited_mono (u ∷ us) v w h = ground (arith, h u, unvisited_mono us v w h)

pub unvisited_drop :
    (us v : List ℕ) (b : ℕ)
    → mem b us ≡ true
    → mem b v ≡ false
    → unvisited us (b ∷ v) < unvisited us v
unfolding unvisited
unvisited_drop [] v b m n = absurd (cc)
unvisited_drop (u ∷ us) v b m n = elim (Bool-cases (u == b)) [
  | inl e ↦
      (let same : u ≡ b = ground arith in
        let rest = unvisited_mono us v (b ∷ v) (λ x h. ground arith) in rw same (ground arith))
  | inr d ↦ ground (arith, unvisited_drop us v b (ground arith) n)
]

pub unvisited-length : (us v : List ℕ) → unvisited us v ≤ length us
unfolding unvisited
unvisited-length [] v = omega arith
unvisited-length (u ∷ us) v = ground (arith, unvisited-length us v)

pub has_exit_mono :
    (v w : List ℕ) (block : Option ℕ)
    → ((x : ℕ) → mem x v ≡ true → mem x w ≡ true)
    → has_exit v block ≡ true
    → has_exit w block ≡ true
has_exit_mono v w none h e = refl
has_exit_mono v w (some b) h e = h b e
