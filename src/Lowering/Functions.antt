-- ===== src/Lowering/Functions.antt =====
-- FunctionDefinition.cpp: the parameters and the statements of a function keep a valid graph valid.
use caramel.Prelude.{
  ℕ, suc, ◌≡◌, inl, inr, refl, ◌∙◌, ap, Bool, true, false, String, Option, some, List, [], ◌∷◌, All,
  arith, Bool-cases, is_some, if◌then◌else◌, ltb,
}
use caramel.Types.{PrimaryType}
use caramel.Cfg.{Frames}
use caramel.Symbols.{FunctionParameterSignature}
use caramel.Graph.{Graph, pure, fail}
use caramel.Graph.Chain.{get_new_when_true_basic_block-exit}
use caramel.Graph.Exits.{set_exit_when_true-IsExited, IsExited-Extends}
use caramel.Graph.Ensured.{Ensured, ◌>>=◌, pure_lem, read, weaken, done}
use caramel.Graph.Extends.{
  IsRooted-≤, IsGenerated, IsValid, Extends, Extends-refl, Extends-trans, IsFree, Moves-Extends,
  Moves-IsFree, Extends-IsFree,
}
use caramel.Graph.Operations.{add_to-Moves, set_exit_when_true-Extends}
use caramel.Code.{Code}
use caramel.Code.Functions.{
  is_array_parameter, is_unnamed, add_param_array, add_at, add_parameter, add_parameters,
  add_function_statement, add_function_statements,
}
use caramel.Lowering.{IsCode, Builds-Extends, first-IsFree, last-IsFree, safe_add_instruction-Moves}
use caramel.Lowering.Logic.{free-IsGenerated}

-- Only the frames change.
pub frames-Extends :
    {low pinned : ℕ} {g : Graph} (frames : Frames)
    → IsValid g
    → Extends low pinned g (record g { frames = frames })
frames-Extends frames v = record {
  grows = omega arith;
  kept = λ k h p. refl;
  valid = record { closed = v.closed; rooted = IsRooted-≤ _ (omega arith) v.rooted };
  ends = refl;
  context = refl;
}

module _ {total : Bool} {low pinned : ℕ} {g : Graph} {root : ℕ} (v : IsValid g)
    (f : IsFree low pinned g.next_block_number root) where
  add_parameter-Extends :
      (i : ℕ) (p : FunctionParameterSignature)
      → Ensured total (add_parameter root i p) g (λ _ g'. Extends low pinned g g')
  unfolding add_parameter add_at
  add_parameter-Extends i p = elim (Bool-cases (ltb i 6)) [
    | inl e ↦
        rw e (add_to-Moves v _ (free-IsGenerated f) >>= λ _ g2 m2. pure_lem (Moves-Extends f m2))
    | inr e ↦ rw e (done tt _ refl (frames-Extends _ v))
  ]

  if_array-Extends :
      (c : Bool) (name : String) (type : PrimaryType)
      → Ensured total
          (if c then add_param_array root name type else pure tt)
          g
          (λ _ g'. Extends low pinned g g')
  unfolding add_param_array
  if_array-Extends true name type = done tt _ refl (frames-Extends _ v)
  if_array-Extends false name type = pure_lem (Extends-refl v)

module _ {total : Bool} {low pinned : ℕ} where
  pub add_parameters-Extends :
      (i : ℕ) (ps : List FunctionParameterSignature) (g : Graph) (root : ℕ)
      → IsValid g
      → IsFree low pinned g.next_block_number root
      → Ensured total (add_parameters root i ps) g (λ _ g'. Extends low pinned g g')
  unfolding add_parameters
  add_parameters-Extends i [] g root v f = pure_lem (Extends-refl v)
  add_parameters-Extends i (p ∷ ps) g root v f =
      if_array-Extends v f (is_array_parameter p.symbol_type) p.name p.primary_type >>= λ _ g1 e1.
      elim (Bool-cases (is_unnamed p.name)) [
        | inl y ↦ rw y (pure_lem e1)
        | inr n ↦ rw n (
            add_parameter-Extends e1.valid (Extends-IsFree e1 f) i p >>= λ _ g2 e2.
            let e12 = Extends-trans e1 e2 in
            weaken (add_parameters-Extends (suc i) ps g2 root e2.valid (Extends-IsFree e12 f))
              (λ _ g3 e3. Extends-trans e12 e3))
      ]

-- A free block that leads somewhere.
pub record IsCurrent (low pinned : ℕ) (b : ℕ) (g : Graph) : Type 0 where
  pub free : IsFree low pinned g.next_block_number b
  pub leads : is_some (g.blocks b).exit_when_true ≡ true

module _ {total : Bool} {low pinned : ℕ} where
  add_function_statement-IsCurrent :
      {end : ℕ} {c : Code}
      → IsCode total false c
      → (g : Graph) (b : ℕ) → IsValid g
      → IsGenerated g.next_block_number (some end)
      → IsCurrent low pinned b g
      → Ensured total
          (add_function_statement end c b)
          g
          (λ b' g'. IsCurrent low pinned b' g' × Extends low pinned g g')
  unfolding add_function_statement
  add_function_statement-IsCurrent {end = end} {c = c} k g b v n f =
      elim (Bool-cases c.should_return_an_ir) [
        | inl y ↦ rw y (
            safe_add_instruction-Moves c.get_ir b
              (k.ir y g b v (free-IsGenerated f.free) (λ e. absurd (cc (e))))
            >>= λ x g1 m1. pure_lem (
              record { free = Moves-IsFree f.free m1; leads = ap is_some m1.when_true ∙ f.leads },
              Moves-Extends f.free m1,
            ))
        | inr i ↦ elim (Bool-cases c.should_return_a_basic_block) [
          | inr n' ↦ rw (i, n') (pure_lem (f, Extends-refl v))
          | inl y ↦
              rw (i, y)
                (k.blocks i y g v (λ e. absurd (cc (e))) >>= λ x g1 b1.
                  let e1 = Builds-Extends b1 in
                  let l = f.free.low_generated in
                  let p = f.free.pinned_generated in
                  let first = first-IsFree b1 l p in
                  let last = last-IsFree b1 l p in
                  let same = b1.extends.kept b f.free.generated (inl f.free.generated) in
                  read _ _ (
                    leading _ (ap is_some (ap (λ z. z.exit_when_true) same) ∙ f.leads) e1.valid
                    >>= λ _ g2 e2.
                        let e12 = Extends-trans e1 e2 in
                        set_exit_when_true-Extends e2.valid (Extends-IsFree e12 f.free) _
                          (free-IsGenerated (Extends-IsFree e2 first))
                        >>= λ _ g3 e3.
                            let e23 = Extends-trans e2 e3 in
                            set_exit_when_true-IsExited e3.valid x.1 (some end)
                              (n.0, omega (arith, n, e1.grows, e23.grows))
                            >>= λ _ g4 s4.
                                let e24 =
                                  Extends-trans e23
                                    (IsExited-Extends (Extends-IsFree e23 last) s4) in
                                weaken
                                  (get_new_when_true_basic_block-exit "_funcinnerafter" e24.valid
                                    (Extends-IsFree e24 last))
                                  (λ b' g5 (f5, e5, leads). (
                                    record { free = f5; leads = ap is_some (leads ∙ s4.at_true) },
                                    Extends-trans e1 (Extends-trans e24 e5),
                                  ))))
        ]
      ]
    where
      leading :
          (exit : Option ℕ) {g : Graph}
          → is_some exit ≡ true
          → IsValid g
          → Ensured total
              (if is_some exit then pure tt else fail)
              g
              (λ _ g'. Extends low pinned g g')
      leading exit e v = rw e (pure_lem (Extends-refl v))

  pub add_function_statements-Extends :
      {end : ℕ} (cs : List Code)
      → All (IsCode total false) cs
      → (g : Graph) (b : ℕ) → IsValid g
      → IsGenerated g.next_block_number (some end)
      → IsCurrent low pinned b g
      → Ensured total (add_function_statements end cs b) g (λ _ g'. Extends low pinned g g')
  unfolding add_function_statements
  add_function_statements-Extends [] all g b v n f = pure_lem (Extends-refl v)
  add_function_statements-Extends (c ∷ cs) (k, all) g b v n f =
      add_function_statement-IsCurrent k g b v n f >>= λ b1 g1 (f1, e1).
      weaken
        (add_function_statements-Extends cs all g1 b1 e1.valid (n.0, omega (arith, n, e1.grows)) f1)
        (λ _ g2 e2. Extends-trans e1 e2)
