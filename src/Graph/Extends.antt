-- ===== src/Graph/Extends.antt =====
-- src/ir/CFG.cpp, src/ir/BasicBlock.cpp: what the steps of the construction change in a graph.
use caramel.Prelude.{
  List, true, ℕ, ◌≤◌, ◌<◌, ◌≡◌, ◌≢◌, ◌⊎◌, inl, inr, refl, sym, ◌∙◌, Option, none, some, arith,
}
use caramel.Blocks.Order.{mem}
use caramel.Graph.{Graph}

-- A null pointer, or the number of a block that has been generated.
abbrev pub IsGenerated : ℕ → Option ℕ → Type 0
IsGenerated n none = Unit {0}
IsGenerated n (some id) = (0 < id) × (id ≤ n)

pub IsGenerated-≤ : {n m : ℕ} (exit : Option ℕ) → n ≤ m → IsGenerated n exit → IsGenerated m exit
IsGenerated-≤ none h i = tt
IsGenerated-≤ (some id) h (p, q) = (p, omega (arith, h, q))

-- Every block of a list has been generated.
abbrev pub IsRooted : ℕ → List ℕ → Type 0
IsRooted n roots = (r : ℕ) → mem r roots ≡ true → IsGenerated n (some r)

pub IsRooted-≤ : {n m : ℕ} (roots : List ℕ) → n ≤ m → IsRooted n roots → IsRooted m roots
IsRooted-≤ roots le h r m = IsGenerated-≤ (some r) le (h r m)

pub record IsValid (g : Graph) : Type 0 where
  pub closed :
      (k : ℕ)
      → IsGenerated g.next_block_number (g.blocks k).exit_when_true
        × IsGenerated g.next_block_number (g.blocks k).exit_when_false
  pub rooted : IsRooted g.next_block_number g.roots

-- A part of the construction that changes neither the blocks up to number `low` nor block `pinned`.
pub record Extends (low pinned : ℕ) (g g' : Graph) : Type 0 where
  pub grows : g.next_block_number ≤ g'.next_block_number
  pub kept : (k : ℕ) → k ≤ g.next_block_number → (k ≤ low) ⊎ (k ≡ pinned) → g'.blocks k ≡ g.blocks k
  pub valid : IsValid g'
  pub ends : g'.control_block_ends ≡ g.control_block_ends
  pub context : g'.next_function_context ≡ g.next_function_context

module _ {low pinned : ℕ} where
  pub Extends-refl : {g : Graph} → IsValid g → Extends low pinned g g
  Extends-refl v = record {
    grows = omega arith;
    kept = λ k h p. refl;
    valid = v;
    ends = refl;
    context = refl;
  }

  pub Extends-trans :
      {g g' g'' : Graph}
      → Extends low pinned g g'
      → Extends low pinned g' g''
      → Extends low pinned g g''
  Extends-trans e f = record {
    grows = omega (arith, e.grows, f.grows);
    kept = λ k h p. f.kept k (omega (arith, h, e.grows)) p ∙ e.kept k h p;
    valid = f.valid;
    ends = f.ends ∙ e.ends;
    context = f.context ∙ e.context;
  }

-- A part of the construction in a current block: no other block changes, and the block that is current
-- afterwards is the same, or a new one, and has the exits of the old.
pub record Moves (g : Graph) (current : ℕ) (g' : Graph) (current' : ℕ) : Type 0 where
  pub grows : g.next_block_number ≤ g'.next_block_number
  pub here : IsGenerated g'.next_block_number (some current')
  pub from : (current' ≡ current) ⊎ (g.next_block_number < current')
  pub kept : (k : ℕ) → k ≤ g.next_block_number → k ≢ current → g'.blocks k ≡ g.blocks k
  pub when_true : (g'.blocks current').exit_when_true ≡ (g.blocks current).exit_when_true
  pub when_false : (g'.blocks current').exit_when_false ≡ (g.blocks current).exit_when_false
  pub valid : IsValid g'
  pub ends : g'.control_block_ends ≡ g.control_block_ends
  pub context : g'.next_function_context ≡ g.next_function_context

pub Moves-refl :
    {g : Graph} {current : ℕ}
    → IsValid g
    → IsGenerated g.next_block_number (some current)
    → Moves g current g current
Moves-refl v h = record {
  grows = omega arith;
  here = h;
  from = inl refl;
  kept = λ k h n. refl;
  when_true = refl;
  when_false = refl;
  valid = v;
  ends = refl;
  context = refl;
}

pub Moves-trans :
    {g g' g'' : Graph} {b b' b'' : ℕ} → Moves g b g' b' → Moves g' b' g'' b'' → Moves g b g'' b''
Moves-trans m n = record {
  grows = omega (arith, m.grows, n.grows);
  here = n.here;
  from = later m.from n.from m.grows;
  kept = λ k h d. n.kept k (omega (arith, h, m.grows)) (λ e. moved k h d e m.from) ∙ m.kept k h d;
  when_true = n.when_true ∙ m.when_true;
  when_false = n.when_false ∙ m.when_false;
  valid = n.valid;
  ends = n.ends ∙ m.ends;
  context = n.context ∙ m.context;
}
  where
    later : {x y z a c : ℕ} → (y ≡ x) ⊎ (a < y) → (z ≡ y) ⊎ (c < z) → a ≤ c → (z ≡ x) ⊎ (a < z)
    later (inl p) (inl q) h = inl (q ∙ p)
    later (inl p) (inr q) h = inr (omega (arith, q, h))
    later (inr p) (inl q) h = inr (omega (arith, p, q))
    later (inr p) (inr q) h = inr (omega (arith, q, h))

    moved : {x y a : ℕ} (k : ℕ) → k ≤ a → k ≢ x → k ≡ y → (y ≡ x) ⊎ (a < y) → ⊥
    moved k h d e (inl p) = d (e ∙ p)
    moved k h d e (inr p) = omega (arith, h, e, p)

-- A block that may be changed.
pub record IsFree (low pinned n b : ℕ) : Type 0 where
  pub above : low < b
  pub other : b ≢ pinned
  pub generated : b ≤ n
  pub low_generated : low ≤ n
  pub pinned_generated : pinned ≤ n

module _ {low pinned : ℕ} {g g' : Graph} {b b' : ℕ} where
  pub Moves-Extends :
      IsFree low pinned g.next_block_number b → Moves g b g' b' → Extends low pinned g g'
  Moves-Extends f m = record {
    grows = m.grows;
    kept = λ k h p. m.kept k h (λ e. hit k e p);
    valid = m.valid;
    ends = m.ends;
    context = m.context;
  }
    where
      hit : (k : ℕ) → k ≡ b → (k ≤ low) ⊎ (k ≡ pinned) → ⊥
      hit k e (inl p) = omega (arith, e, p, f.above)
      hit k e (inr p) = f.other (sym e ∙ p)

  pub Moves-IsFree :
      IsFree low pinned g.next_block_number b
      → Moves g b g' b'
      → IsFree low pinned g'.next_block_number b'
  Moves-IsFree f m = elim m.from [
    | inl e ↦ record {
      above = omega (arith, f.above, e);
      other = λ p. f.other (sym e ∙ p);
      generated = omega (arith, f.generated, m.grows, e);
      low_generated = omega (arith, f.low_generated, m.grows);
      pinned_generated = omega (arith, f.pinned_generated, m.grows);
    }
    | inr l ↦ record {
      above = omega (arith, f.low_generated, l);
      other = λ p. omega (arith, p, l, f.pinned_generated);
      generated = m.here.1;
      low_generated = omega (arith, f.low_generated, m.grows);
      pinned_generated = omega (arith, f.pinned_generated, m.grows);
    }
  ]

pub IsFree-≤ : {low pinned n m b : ℕ} → IsFree low pinned n b → n ≤ m → IsFree low pinned m b
IsFree-≤ f h = record {
  above = f.above;
  other = f.other;
  generated = omega (arith, f.generated, h);
  low_generated = omega (arith, f.low_generated, h);
  pinned_generated = omega (arith, f.pinned_generated, h);
}

pub Extends-IsFree :
    {low pinned b : ℕ} {g g' : Graph}
    → Extends low pinned g g'
    → IsFree low pinned g.next_block_number b
    → IsFree low pinned g'.next_block_number b
Extends-IsFree e f = IsFree-≤ f e.grows
