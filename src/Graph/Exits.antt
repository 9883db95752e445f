-- ===== src/Graph/Exits.antt =====
-- src/ir/BasicBlock.cpp, `setExitWhenTrue`, `setExitWhenFalse`: a block takes other exits.
use caramel.Prelude.{ℕ, ◌≡◌, ◌≢◌, refl, ap, Bool, Option, none, some, arith, is_some, if◌then◌else◌}
use caramel.Graph.{Graph, pure, set_exit_when_true, set_exit_when_false}
use caramel.Graph.Ensured.{Ensured, done, pure_lem}
use caramel.Graph.Extends.{IsRooted-≤, IsGenerated, IsValid, Extends, IsFree}
use caramel.Graph.Operations.{free_kept, store_kept, store_at, store_closed}

-- The exits of one block are others, and nothing else is.
pub record IsExited (g : Graph) (b : ℕ) (when_true when_false : Option ℕ) (g' : Graph)
    : Type 0 where
  pub next : g'.next_block_number ≡ g.next_block_number
  pub kept : (k : ℕ) → k ≢ b → g'.blocks k ≡ g.blocks k
  pub at_true : (g'.blocks b).exit_when_true ≡ when_true
  pub at_false : (g'.blocks b).exit_when_false ≡ when_false
  pub instructions : (g'.blocks b).instructions ≡ (g.blocks b).instructions
  pub valid : IsValid g'
  pub ends : g'.control_block_ends ≡ g.control_block_ends
  pub context : g'.next_function_context ≡ g.next_function_context

module _ {total : Bool} {g : Graph} (v : IsValid g) (b : ℕ) (exit : Option ℕ)
    (h : IsGenerated g.next_block_number exit) where
  pub set_exit_when_true-IsExited :
      Ensured total
        (set_exit_when_true b exit)
        g
        (λ _ g'. IsExited g b exit (g.blocks b).exit_when_false g')
  unfolding set_exit_when_true
  set_exit_when_true-IsExited = done tt _ refl (record {
    next = refl;
    kept = store_kept g.blocks b _;
    at_true = ap (λ x. x.exit_when_true) (store_at g.blocks b _);
    at_false = ap (λ x. x.exit_when_false) (store_at g.blocks b _);
    instructions = ap (λ x. x.instructions) (store_at g.blocks b _);
    valid = record {
      closed = store_closed g.blocks b _ _ _ (omega arith) v.closed h (v.closed b).1;
      rooted = IsRooted-≤ _ (omega arith) v.rooted;
    };
    ends = refl;
    context = refl;
  })

  pub set_exit_when_false-IsExited :
      Ensured total
        (set_exit_when_false b exit)
        g
        (λ _ g'. IsExited g b (g.blocks b).exit_when_true exit g')
  unfolding set_exit_when_false
  set_exit_when_false-IsExited = done tt _ refl (record {
    next = refl;
    kept = store_kept g.blocks b _;
    at_true = ap (λ x. x.exit_when_true) (store_at g.blocks b _);
    at_false = ap (λ x. x.exit_when_false) (store_at g.blocks b _);
    instructions = ap (λ x. x.instructions) (store_at g.blocks b _);
    valid = record {
      closed = store_closed g.blocks b _ _ _ (omega arith) v.closed (v.closed b).0 h;
      rooted = IsRooted-≤ _ (omega arith) v.rooted;
    };
    ends = refl;
    context = refl;
  })

-- The exits that a block has.
pub IsExited-refl :
    {g : Graph} {b : ℕ} {when_true when_false : Option ℕ}
    → IsValid g
    → (g.blocks b).exit_when_true ≡ when_true
    → (g.blocks b).exit_when_false ≡ when_false
    → IsExited g b when_true when_false g
IsExited-refl v t f = record {
  next = refl;
  kept = λ k n. refl;
  at_true = t;
  at_false = f;
  instructions = refl;
  valid = v;
  ends = refl;
  context = refl;
}

module _ {total : Bool} {g : Graph} (v : IsValid g) (b : ℕ) where
  -- An exit that is set only where it is not null, on a block that has none.
  pub if_exit_when_true-IsExited :
      (exit : Option ℕ)
      → IsGenerated g.next_block_number exit
      → (g.blocks b).exit_when_true ≡ none
      → Ensured total
          (if is_some exit then set_exit_when_true b exit else pure tt)
          g
          (λ _ g'. IsExited g b exit (g.blocks b).exit_when_false g')
  if_exit_when_true-IsExited none h e = pure_lem (IsExited-refl v e refl)
  if_exit_when_true-IsExited (some id) h e = set_exit_when_true-IsExited v b (some id) h

  pub if_exit_when_false-IsExited :
      (exit : Option ℕ)
      → IsGenerated g.next_block_number exit
      → (g.blocks b).exit_when_false ≡ none
      → Ensured total
          (if is_some exit then set_exit_when_false b exit else pure tt)
          g
          (λ _ g'. IsExited g b (g.blocks b).exit_when_true exit g')
  if_exit_when_false-IsExited none h e = pure_lem (IsExited-refl v refl e)
  if_exit_when_false-IsExited (some id) h e = set_exit_when_false-IsExited v b (some id) h

pub IsExited-Extends :
    {low pinned b : ℕ} {when_true when_false : Option ℕ} {g g' : Graph}
    → IsFree low pinned g.next_block_number b
    → IsExited g b when_true when_false g'
    → Extends low pinned g g'
IsExited-Extends f x = record {
  grows = omega (arith, x.next);
  kept = λ k h p. x.kept k (free_kept f k p);
  valid = x.valid;
  ends = x.ends;
  context = x.context;
}
