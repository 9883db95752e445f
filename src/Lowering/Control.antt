-- ===== src/Lowering/Control.antt =====
-- src/ast/statements/controlblocks: the parts of the conditions and loops keep a valid graph valid.
use caramel.Prelude.{
  ℕ, ◌≡◌, inl, inr, ◌∙◌, ap, Bool, true, false, String, some, List, [], ◌∷◌, All, arith, Bool-cases,
}
use caramel.Graph.{Graph, Lower}
use caramel.Graph.Ensured.{Ensured, ◌>>=◌, pure_lem, read, weaken}
use caramel.Graph.Extends.{
  IsGenerated, IsValid, Extends, Extends-refl, Extends-trans, Moves, IsFree, Moves-Extends,
  Moves-IsFree, Extends-IsFree,
}
use caramel.Graph.Operations.{set_exit_when_true-Extends, set_exit_when_false-Extends}
use caramel.Graph.Chain.{get_new_when_true_basic_block-Extends}
use caramel.Code.{Code, Value, GetBasicBlock}
use caramel.Code.Control.{add_statement, add_statements, if_condition, else_branch, loop_condition}
use caramel.Lowering.{
  IsValue, IsCode, HasEnd, Builds, Builds-Extends, first-IsFree, last-IsFree, added-Moves,
  safe_add_instruction-Moves, is_cons,
}
use caramel.Lowering.Logic.{free-IsGenerated}

pub HasEnd-Extends :
    {inside : Bool} {low pinned : ℕ} {g g' : Graph}
    → Extends low pinned g g'
    → HasEnd inside g
    → HasEnd inside g'
HasEnd-Extends e h t = ap is_cons e.ends ∙ h t

-- A part of the construction that moves from a free block to another.
abbrev pub Steps : Bool → ℕ → ℕ → Graph → Lower ℕ → Type 0
Steps total low pinned g part =
    Ensured total part g
      (λ b g'. IsFree low pinned g'.next_block_number b × Extends low pinned g g')

module _ {total : Bool} {low pinned : ℕ} where
  module _ {inside : Bool} where
    pub add_statement-Steps :
        (suffix : String) {c : Code}
        → IsCode total inside c
        → (g : Graph) (b : ℕ) → IsValid g
        → IsFree low pinned g.next_block_number b
        → HasEnd inside g
        → Steps total low pinned g (add_statement suffix c b)
    unfolding add_statement
    add_statement-Steps suffix {c = c} k g b v f h = elim (Bool-cases c.should_return_an_ir) [
      | inl y ↦ rw y (
          safe_add_instruction-Moves c.get_ir b (k.ir y g b v (free-IsGenerated f) h) >>= λ x g1 m1.
          pure_lem (Moves-IsFree f m1, Moves-Extends f m1))
      | inr n ↦ elim (Bool-cases c.should_return_a_basic_block) [
        | inr n' ↦ rw (n, n') (pure_lem (f, Extends-refl v))
        | inl y ↦
            rw (n, y)
              (k.blocks n y g v h >>= λ x g1 b1.
                let e1 = Builds-Extends b1 in
                let first = first-IsFree b1 f.low_generated f.pinned_generated in
                let last = last-IsFree b1 f.low_generated f.pinned_generated in
                read _ _ (
                  set_exit_when_true-Extends e1.valid last _ (e1.valid.closed b).0 >>= λ _ g2 e2.
                  set_exit_when_true-Extends e2.valid (Extends-IsFree (Extends-trans e1 e2) f) _
                    (free-IsGenerated (Extends-IsFree e2 first))
                  >>= λ _ g3 e3.
                      let e23 = Extends-trans e2 e3 in
                      weaken
                        (get_new_when_true_basic_block-Extends suffix e3.valid
                          (Extends-IsFree e23 last))
                        (λ b' g4 (f4, e4). (f4, Extends-trans e1 (Extends-trans e23 e4)))))
      ]
    ]

    pub add_statements-Steps :
        (suffix : String) (cs : List Code)
        → All (IsCode total inside) cs
        → (g : Graph) (b : ℕ) → IsValid g
        → IsFree low pinned g.next_block_number b
        → HasEnd inside g
        → Steps total low pinned g (add_statements suffix cs b)
    unfolding add_statements
    add_statements-Steps suffix [] all g b v f h = pure_lem (f, Extends-refl v)
    add_statements-Steps suffix (c ∷ cs) (k, all) g b v f h =
        add_statement-Steps suffix k g b v f h >>= λ b1 g1 (f1, e1).
        weaken (add_statements-Steps suffix cs all g1 b1 e1.valid f1 (HasEnd-Extends e1 h))
          (λ b' g2 (f2, e2). (f2, Extends-trans e1 e2))

    pub else_branch-Extends :
        (cs : List Code)
        → All (IsCode total inside) cs
        → (g : Graph) {b on_false end : ℕ} → IsValid g
        → IsFree low pinned g.next_block_number b
        → IsFree low pinned g.next_block_number on_false
        → IsGenerated g.next_block_number (some end)
        → HasEnd inside g
        → Ensured total (else_branch cs b on_false end) g (λ _ g'. Extends low pinned g g')
    unfolding else_branch
    else_branch-Extends [] all g v f n e h = set_exit_when_false-Extends v f _ e
    else_branch-Extends (c ∷ cs) all g v f n e h =
        set_exit_when_false-Extends v f _ (free-IsGenerated n) >>= λ _ g1 e1.
        set_exit_when_true-Extends e1.valid (Extends-IsFree e1 n) _
          (e.0, omega (arith, e, e1.grows))
        >>= λ _ g2 e2.
            let e12 = Extends-trans e1 e2 in
            add_statements-Steps _ (c ∷ cs) all g2 _ e2.valid (Extends-IsFree e12 n)
              (HasEnd-Extends e12 h)
            >>= λ b' g3 (f3, e3). pure_lem (Extends-trans e12 e3)

  pub if_condition-Steps :
      {c : Value}
      → IsValue total c
      → (g : Graph) {b on_true on_false : ℕ} → IsValid g
      → IsFree low pinned g.next_block_number b
      → IsFree low pinned g.next_block_number on_true
      → IsFree low pinned g.next_block_number on_false
      → Steps total low pinned g (if_condition c b on_true on_false)
  unfolding if_condition
  if_condition-Steps {c = c} k g v f t n = elim (Bool-cases c.code.should_return_an_ir) [
    | inl y ↦ rw y (
        added-Moves k.ir v (free-IsGenerated f) >>= λ x g1 m1.
        pure_lem (Moves-IsFree f m1, Moves-Extends f m1))
    | inr i ↦ elim (Bool-cases c.code.should_return_a_basic_block) [
      | inr n' ↦ rw (i, n') (pure_lem (f, Extends-refl v))
      | inl y ↦
          rw (i, y)
            (k.blocks i g v >>= λ x g1 b1.
              let e1 = Builds-Extends b1 in
              let first = first-IsFree b1 f.low_generated f.pinned_generated in
              let last = last-IsFree b1 f.low_generated f.pinned_generated in
              set_exit_when_true-Extends e1.valid last _ (free-IsGenerated (Extends-IsFree e1 t))
              >>= λ _ g2 e2.
                  let e12 = Extends-trans e1 e2 in
                  set_exit_when_false-Extends e2.valid (Extends-IsFree e2 last) _
                    (free-IsGenerated (Extends-IsFree e12 n))
                  >>= λ _ g3 e3.
                      pure_lem (Extends-IsFree (Extends-trans e2 e3) first, Extends-trans e12 e3))
    ]
  ]

  pub loop_condition-Steps :
      (c : Code) (blocks : GetBasicBlock) (suffix : String)
      → (c.should_return_an_ir ≡ true
          → (g : Graph) (b : ℕ) → IsValid g
          → IsGenerated g.next_block_number (some b)
          → Ensured total (c.get_ir b) g (λ x g'. Moves g b g' x.1))
      → (c.should_return_an_ir ≡ false
          → (g : Graph) → IsValid g
          → Ensured total blocks g (λ x g'. Builds g x.0 x.1 g'))
      → (g : Graph) {b body end : ℕ} → IsValid g
      → IsFree low pinned g.next_block_number b
      → IsGenerated g.next_block_number (some body)
      → IsGenerated g.next_block_number (some end)
      → Steps total low pinned g (loop_condition c blocks suffix b body end)
  unfolding loop_condition
  loop_condition-Steps c blocks suffix ir built g v f t n =
      elim (Bool-cases c.should_return_an_ir) [
        | inl y ↦ rw y (
            added-Moves (ir y) v (free-IsGenerated f) >>= λ x g1 m1.
            pure_lem (Moves-IsFree f m1, Moves-Extends f m1))
        | inr i ↦ elim (Bool-cases c.should_return_a_basic_block) [
          | inr n' ↦ rw (i, n') (pure_lem (f, Extends-refl v))
          | inl y ↦
              rw (i, y)
                (built i g v >>= λ x g1 b1.
                  let e1 = Builds-Extends b1 in
                  let first = first-IsFree b1 f.low_generated f.pinned_generated in
                  let last = last-IsFree b1 f.low_generated f.pinned_generated in
                  set_exit_when_true-Extends e1.valid (Extends-IsFree e1 f) _
                    (free-IsGenerated first)
                  >>= λ _ g2 e2.
                      set_exit_when_true-Extends e2.valid (Extends-IsFree e2 last) _
                        (t.0, omega (arith, t, e1.grows, e2.grows))
                      >>= λ _ g3 e3.
                          let e23 = Extends-trans e2 e3 in
                          set_exit_when_false-Extends e3.valid (Extends-IsFree e23 last) _
                            (n.0, omega (arith, n, e1.grows, e23.grows))
                          >>= λ _ g4 e4.
                              let e24 = Extends-trans e23 e4 in
                              weaken
                                (get_new_when_true_basic_block-Extends suffix e4.valid
                                  (Extends-IsFree e24 last))
                                (λ b' g5 (f5, e5). (f5, Extends-trans e1 (Extends-trans e24 e5))))
        ]
      ]
