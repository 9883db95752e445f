-- ===== src/Blocks/Order/Once.antt =====
-- X86_64CFGVisitor.cpp: one block is written between the visit of it and the end of the traversals
-- behind its exits.
use caramel.Prelude.{
  ℕ, ◌==◌, ◌≡◌, refl, ◌⊎◌, subst, inl, inr, true, false, ◌||◌, Option, some, ◌∷◌, arith, Bool-cases,
}
use caramel.Blocks.Order.{Exits, Progress, mem}
use caramel.Blocks.Order.Unvisited.{unique, has_exit, has_exit_mono}

module _ (exits : Exits) where
  -- The blocks that a block leads to, by its exits and theirs.
  pub data Reaches : Option ℕ → ℕ → Type 0 where
    at : (b : ℕ) → Reaches (some b) b
    when_false : (b : ℕ) {x : ℕ} → Reaches (exits b).0 x → Reaches (some b) x
    when_true : (b : ℕ) {x : ℕ} → Reaches (exits b).1 x → Reaches (some b) x

  -- What a traversal from a block does to the blocks that are visited and written.
  pub record Traversed (block : Option ℕ) (p p' : Progress) : Type 0 where
    pub grows : (x : ℕ) → mem x p.visited ≡ true → mem x p'.visited ≡ true
    pub keeps : (x : ℕ) → mem x p.order ≡ true → mem x p'.order ≡ true
    pub reached : has_exit p'.visited block ≡ true
    pub finished :
        (x : ℕ) → mem x p'.visited ≡ true → (mem x p.visited ≡ true) ⊎ (mem x p'.order ≡ true)
    pub fresh : (x : ℕ) → mem x p'.order ≡ true → (mem x p.order ≡ true) ⊎ (mem x p.visited ≡ false)
    pub only : (x : ℕ) → mem x p'.order ≡ true → (mem x p.order ≡ true) ⊎ Reaches block x

  abbrev pub IsWithin : Progress → Type 0
  IsWithin p = (x : ℕ) → mem x p.order ≡ true → mem x p.visited ≡ true

  abbrev pub IsClosed : Progress → Type 0
  IsClosed p =
      (x : ℕ)
      → mem x p.order ≡ true
      → (has_exit p.visited (exits x).0 ≡ true) × (has_exit p.visited (exits x).1 ≡ true)

  -- The blocks that are written are visited, no one twice, and so are the blocks behind their exits.
  pub record IsSound (p : Progress) : Type 0 where
    pub within : IsWithin p
    pub once : unique p.order ≡ true
    pub closed : IsClosed p

  -- The block b between the visit and the writing of it.
  module _ (b : ℕ) (p p' p'' : Progress) (new : mem b p.visited ≡ false)
      (first : Traversed (exits b).0 (record p { visited = b ∷ p.visited }) p')
      (second : Traversed (exits b).1 p' p'') where
    abbrev pub written : Progress
    written = record p'' { order = b ∷ p''.order }

    b-visited : mem b p''.visited ≡ true
    b-visited = second.grows b (first.grows b (ground (arith, same b)))
      where
        same : (n : ℕ) → (n == n) ≡ true
        same n = ground arith

    grows_both : (x : ℕ) → mem x p.visited ≡ true → mem x p''.visited ≡ true
    grows_both x h = second.grows x (first.grows x (ground arith))

    -- A block that the two traversals have written was written before, or not visited before.
    fresh_both :
        (x : ℕ)
        → mem x p''.order ≡ true
        → (mem x p.order ≡ true) ⊎ ((b == x) || mem x p.visited) ≡ false
    fresh_both x h = elim (second.fresh x h) [
      | inl o ↦ first.fresh x o
      | inr n ↦ elim (Bool-cases ((b == x) || mem x p.visited)) [
        | inl e ↦ absurd (cc (first.grows x e, n))
        | inr e ↦ inr e
      ]
    ]

    pub step-Traversed : Traversed (some b) p written
    step-Traversed = record {
      grows = grows_both;
      keeps = λ x h. ground (arith, second.keeps x (first.keeps x h));
      reached = b-visited;
      finished = λ x h. elim (second.finished x h) [
        | inr o ↦ inr (ground arith)
        | inl v ↦ elim (first.finished x v) [
          | inr o ↦ inr (ground (arith, second.keeps x o))
          | inl w ↦ elim (Bool-cases (b == x)) [
            | inl e ↦ inr (ground arith)
            | inr d ↦ inl (ground arith)
          ]
        ]
      ];
      fresh = λ x h. elim (Bool-cases (b == x)) [
        | inl e ↦
            (let same : b ≡ x = ground arith in inr (subst (λ y. mem y p.visited ≡ false) same new))
        | inr d ↦ elim (fresh_both x (ground arith)) [ inl o ↦ inl o | inr n ↦ inr (ground arith) ]
      ];
      only = λ x h. elim (Bool-cases (b == x)) [
        | inl e ↦
            (let same : b ≡ x = ground arith in inr (subst (λ y. Reaches (some b) y) same (at b)))
        | inr d ↦ elim (second.only x (ground arith)) [
          | inr r ↦ inr (when_true b r)
          | inl o ↦ elim (first.only x o) [ inl w ↦ inl w | inr r ↦ inr (when_false b r) ]
        ]
      ];
    }

    pub step-IsSound : IsSound p → IsSound p'' → IsSound written
    step-IsSound before s = record {
      within = λ x h. elim (Bool-cases (b == x)) [
        | inl e ↦
            (let same : b ≡ x = ground arith in
              subst (λ y. mem y p''.visited ≡ true) same b-visited)
        | inr d ↦ s.within x (ground arith)
      ];
      once = elim (Bool-cases (mem b p''.order)) [
        | inr n ↦ rw (n, s.once) refl
        | inl o ↦ elim (fresh_both b o) [
          | inl w ↦ absurd (cc (before.within b w, new))
          | inr n ↦ absurd (ground arith)
        ]
      ];
      closed = λ x h. elim (Bool-cases (b == x)) [
        | inl e ↦
            (let same : b ≡ x = ground arith in
              subst
                (λ y.
                  (has_exit p''.visited (exits y).0 ≡ true)
                  × (has_exit p''.visited (exits y).1 ≡ true))
                same
                (
                  has_exit_mono p'.visited p''.visited (exits b).0 second.grows first.reached,
                  second.reached,
                ))
        | inr d ↦ s.closed x (ground arith)
      ];
    }

  pub visit-IsSound :
      (b : ℕ) (p : Progress) → IsSound p → IsSound (record p { visited = b ∷ p.visited })
  visit-IsSound b p s = record {
    within = λ x h. (let w = s.within x h in ground arith);
    once = s.once;
    closed = λ x h.
        (let (f, t) = s.closed x h in
          (
            has_exit_mono p.visited (b ∷ p.visited) (exits x).0 (λ y e. ground arith) f,
            has_exit_mono p.visited (b ∷ p.visited) (exits x).1 (λ y e. ground arith) t,
          ));
  }
