-- ===== src/Lowering/Blocks.antt =====
-- src/ast/statements/controlblocks: the blocks of a condition or a loop are built on a valid graph, and
-- the stack of the loops around is left as it was.
use caramel.Prelude.{ℕ, ◌≤◌, ◌<◌, ◌≡◌, inr, refl, ◌∙◌, ap, Bool, none, some, List, ◌∷◌, All, arith}
use caramel.Graph.{Graph, push_control_block_end, pop_control_block_end, without_top}
use caramel.Graph.Ensured.{Ensured, ◌>>=◌, pure_lem, done}
use caramel.Graph.Extends.{
  IsRooted-≤, IsGenerated, IsValid, Extends, Extends-trans, IsFree, Extends-IsFree,
}
use caramel.Graph.Operations.{named_block-Extends, set_exit_when_true-Extends}
use caramel.Code.{Code, Value}
use caramel.Code.Control.{if_block}
use caramel.Lowering.{IsValue, IsCode, IsBuilt, Builds}
use caramel.Lowering.Logic.{free-IsGenerated}
use caramel.Lowering.ShortCircuit.{lowered}
use caramel.Lowering.Control.{
  HasEnd-Extends, add_statements-Steps, else_branch-Extends, if_condition-Steps,
}

-- A graph that differs only in the stack of the loops around.
pub record IsPushed (end : ℕ) (g g' : Graph) : Type 0 where
  pub next : g'.next_block_number ≡ g.next_block_number
  pub kept : (k : ℕ) → g'.blocks k ≡ g.blocks k
  pub valid : IsValid g'
  pub ends : g'.control_block_ends ≡ end ∷ g.control_block_ends
  pub context : g'.next_function_context ≡ g.next_function_context

-- The last block of a control block, which is not changed after it is generated.
pub record IsEnd (n end : ℕ) (g : Graph) : Type 0 where
  pub above : n < end
  pub generated : end ≤ g.next_block_number
  pub no_when_true : (g.blocks end).exit_when_true ≡ none
  pub no_when_false : (g.blocks end).exit_when_false ≡ none

pub IsEnd-IsGenerated :
    {n end m : ℕ} {g : Graph} → IsEnd n end g → g.next_block_number ≤ m → IsGenerated m (some end)
IsEnd-IsGenerated e h = (omega (arith, e.above), omega (arith, e.generated, h))

pub IsEnd-IsFree :
    {n end b : ℕ} {g : Graph} → IsEnd n end g → n < b → b < end → IsFree n end g.next_block_number b
IsEnd-IsFree e l h = record {
  above = l;
  other = λ p. omega (arith, p, h);
  generated = omega (arith, h, e.generated);
  low_generated = omega (arith, e.above, e.generated);
  pinned_generated = e.generated;
}

-- The blocks of a control block, from those that were there and its last block.
pub Extends-Builds :
    {end first : ℕ} {g g1 g2 : Graph}
    → Extends g.next_block_number g.next_block_number g g1
    → IsEnd g.next_block_number end g1
    → Extends g.next_block_number end g1 g2
    → IsFree g.next_block_number end g2.next_block_number first
    → Builds g first end g2
Extends-Builds {end = end} e1 d e2 f =
    let same = e2.kept end d.generated (inr refl) in
    record {
      extends = Extends-trans e1 (lowered (omega arith) e2);
      first_new = f.above;
      first_generated = f.generated;
      last_new = d.above;
      last_generated = f.pinned_generated;
      no_when_true = ap (λ b. b.exit_when_true) same ∙ d.no_when_true;
      no_when_false = ap (λ b. b.exit_when_false) same ∙ d.no_when_false;
    }

module _ {total : Bool} where
  pub push-IsPushed :
      {g : Graph} (end : ℕ)
      → IsValid g
      → Ensured total (push_control_block_end end) g (λ _ g'. IsPushed end g g')
  unfolding push_control_block_end
  push-IsPushed end v = done tt _ refl (record {
    next = refl;
    kept = λ k. refl;
    valid = record { closed = v.closed; rooted = IsRooted-≤ _ (omega arith) v.rooted };
    ends = refl;
    context = refl;
  })

  pub pop-Extends :
      {low pinned end : ℕ} {g g1 g2 : Graph}
      → IsPushed end g g1
      → Extends low pinned g1 g2
      → Ensured total pop_control_block_end g2
          (λ _ g3. (g3.next_block_number ≡ g2.next_block_number) × Extends low pinned g g3)
  unfolding without_top pop_control_block_end
  pop-Extends {g = g} {g2 = g2} p e =
      let top : without_top g2.control_block_ends ≡ some g.control_block_ends =
        ap without_top (e.ends ∙ p.ends) in
      done tt (record g2 { control_block_ends = g.control_block_ends })
        (rw (pop_control_block_end, top) refl)
        (
          refl,
          record {
            grows = omega (arith, p.next, e.grows);
            kept = λ k h q. e.kept k (omega (arith, p.next, h)) q ∙ p.kept k;
            valid = record {
              closed = e.valid.closed;
              rooted = IsRooted-≤ _ (omega arith) e.valid.rooted;
            };
            ends = refl;
            context = e.context ∙ p.context;
          },
        )

  module _ {inside : Bool} {c : Value} (k : IsValue total c) where
    pub if_block-IsBuilt :
        (then_block else_block : List Code)
        → All (IsCode total inside) then_block
        → All (IsCode total inside) else_block
        → IsBuilt total inside (if_block c then_block else_block)
    unfolding if_block
    if_block-IsBuilt then_block else_block ts es g v h =
        let n = g.next_block_number in
        named_block-Extends v _ >>= λ block g1 (s, n1, _, _, e1).
        named_block-Extends e1.valid _ >>= λ on_true g2 (t, n2, _, _, e2).
        named_block-Extends e2.valid _ >>= λ on_false g3 (f, n3, _, _, e3).
        named_block-Extends e3.valid _ >>= λ end g4 (d, n4, no_true, no_false, e4).
        let e14 = Extends-trans e1 (Extends-trans e2 (Extends-trans e3 e4)) in
        let last : IsEnd n end g4 = record {
          above = omega (arith, s, n1, t, n2, f, n3, d);
          generated = omega (arith, n4);
          no_when_true = no_true;
          no_when_false = no_false;
        } in
        let at_block = IsEnd-IsFree last (omega (arith, s)) (omega (arith, n1, t, n2, f, n3, d)) in
        let at_true = IsEnd-IsFree last (omega (arith, s, n1, t)) (omega (arith, n2, f, n3, d)) in
        let at_false = IsEnd-IsFree last (omega (arith, s, n1, t, n2, f)) (omega (arith, n3, d)) in
        set_exit_when_true-Extends e4.valid at_block _ (free-IsGenerated at_true) >>= λ _ g5 e5.
        set_exit_when_true-Extends e5.valid (Extends-IsFree e5 at_true) _
          (IsEnd-IsGenerated last e5.grows)
        >>= λ _ g6 e6.
            let e46 = Extends-trans e5 e6 in
            if_condition-Steps k g6 e6.valid (Extends-IsFree e46 at_block)
              (Extends-IsFree e46 at_true) (Extends-IsFree e46 at_false)
            >>= λ block' g7 (f7, e7).
                let e47 = Extends-trans e46 e7 in
                add_statements-Steps _ then_block ts g7 _ e7.valid (Extends-IsFree e47 at_true)
                  (HasEnd-Extends e47 (HasEnd-Extends e14 h))
                >>= λ _ g8 (_, e8).
                    let e48 = Extends-trans e47 e8 in
                    else_branch-Extends else_block es g8 e8.valid (Extends-IsFree e8 f7)
                      (Extends-IsFree e48 at_false) (IsEnd-IsGenerated last e48.grows)
                      (HasEnd-Extends e48 (HasEnd-Extends e14 h))
                    >>= λ _ g9 e9. pure_lem (
                        Extends-Builds e14 last (Extends-trans e48 e9)
                          (Extends-IsFree (Extends-trans e8 e9) f7))
