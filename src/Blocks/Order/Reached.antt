-- ===== src/Blocks/Order/Reached.antt =====
-- X86_64CFGVisitor.cpp: every block that the root of a function reaches is written, once.
use caramel.Prelude.{
  ℕ, zero, suc, ◌<◌, ◌≡◌, refl, ◌↔◌, inl, inr, true, Option, none, some, List, [], ◌∷◌, length,
  arith, Bool-cases,
}
use caramel.Blocks.Order.{Exits, Progress, mem, order_from}
use caramel.Blocks.Order.Unvisited.{
  unique, has_exit, has_exit_mono, unvisited, unvisited_mono, unvisited_drop, unvisited-length,
}
use caramel.Blocks.Order.Once.{
  Traversed, IsSound, step-Traversed, step-IsSound, visit-IsSound, Reaches, at, when_false,
  when_true, written,
}

module _ (exits : Exits) where
  record Traversal (fuel : ℕ) (block : Option ℕ) (p : Progress) : Type 0 where
    after : Progress
    ran : order_from fuel exits block p ≡ some after
    traversed : Traversed exits block p after
    sound : IsSound exits p → IsSound exits after

  stays :
      (block : Option ℕ) (p : Progress)
      → has_exit p.visited block ≡ true
      → Traversed exits block p p
  stays block p h = record {
    grows = λ x e. e;
    keeps = λ x e. e;
    reached = h;
    finished = λ x e. inl e;
    fresh = λ x e. inl e;
    only = λ x e. inl e;
  }

  -- The blocks of the graph, with those behind their exits.
  module _ (blocks : List ℕ)
      (closed : (x : ℕ)
        → mem x blocks ≡ true
        → (has_exit blocks (exits x).0 ≡ true) × (has_exit blocks (exits x).1 ≡ true)) where
    traverse :
        (fuel : ℕ) (block : Option ℕ) (p : Progress)
        → has_exit blocks block ≡ true
        → unvisited blocks p.visited < fuel
        → Traversal fuel block p
    unfolding order_from
    traverse zero block p h f = absurd (omega arith)
    traverse (suc fuel) none p h f = record {
      after = p;
      ran = refl;
      traversed = stays none p refl;
      sound = λ s. s;
    }
    traverse (suc fuel) (some b) p h f = elim (Bool-cases (mem b p.visited)) [
      | inl e ↦ record {
        after = p;
        ran = rw e refl;
        traversed = stays (some b) p e;
        sound = λ s. s;
      }
      | inr new ↦
          (let (in_false, in_true) = closed b h in
            let dropped = unvisited_drop blocks p.visited b h new in
            let first =
              traverse fuel (exits b).0 (record p { visited = b ∷ p.visited }) in_false
                (omega (arith, dropped, f)) in
            let less =
              unvisited_mono blocks (b ∷ p.visited) first.after.visited first.traversed.grows in
            let second =
              traverse fuel (exits b).1 first.after in_true (omega (arith, dropped, less, f)) in
            record {
              after =
                  written exits b p first.after second.after new first.traversed second.traversed;
              ran = rw (new, first.ran, second.ran) refl;
              traversed =
                  step-Traversed exits b p first.after second.after new first.traversed
                    second.traversed;
              sound = λ s.
                  step-IsSound exits b p first.after second.after new first.traversed
                    second.traversed s (second.sound (first.sound (visit-IsSound exits b p s)));
            })
    ]

    nothing : Progress
    nothing = record { visited = []; order = [] }

    nothing-IsSound : IsSound exits nothing
    unfolding nothing
    nothing-IsSound = record {
      within = λ x h. absurd (cc);
      once = refl;
      closed = λ x h. absurd (cc);
    }

    -- A list that is closed under the exits has all that its blocks reach.
    Reaches-mem :
        (xs : List ℕ)
        → ((x : ℕ)
            → mem x xs ≡ true
            → (has_exit xs (exits x).0 ≡ true) × (has_exit xs (exits x).1 ≡ true))
        → (block : Option ℕ) → has_exit xs block ≡ true
        → {x : ℕ} → Reaches exits block x
        → mem x xs ≡ true
    Reaches-mem xs c block h (at b) = h
    Reaches-mem xs c block h (when_false b r) = Reaches-mem xs c (exits b).0 (c b h).0 r
    Reaches-mem xs c block h (when_true b r) = Reaches-mem xs c (exits b).1 (c b h).1 r

    -- For a root block of a finite graph, none of whose blocks is visited, with as much fuel as there
    -- are blocks and one more: the traversal ends, no block is in the order twice, and a block is in
    -- the order exactly when the root reaches it by the exits.
    pub order_from-Reaches :
        (root : ℕ)
        → mem root blocks ≡ true
        → (p : Progress) × (order_from
              (suc (length blocks))
              exits
              (some root)
              (record { visited = []; order = [] })
            ≡ some p)
          × (unique p.order ≡ true)
          × ((x : ℕ) → (mem x p.order ≡ true) ↔ Reaches exits (some root) x)
    unfolding nothing
    order_from-Reaches root h =
        let all =
          traverse (suc (length blocks)) (some root) nothing h
            (omega (arith, unvisited-length blocks [])) in
        let p = all.after in
        let s = all.sound nothing-IsSound in
        let done : (x : ℕ) → mem x p.visited ≡ true → mem x p.order ≡ true =
          λ x v. elim (all.traversed.finished x v) [ inl e ↦ absurd (cc) | inr o ↦ o ] in
        (
          p,
          all.ran,
          s.once,
          λ x. (
            λ o. elim (all.traversed.only x o) [ inl e ↦ absurd (cc) | inr r ↦ r ],
            λ r.
                Reaches-mem p.order
                  (λ y o.
                    (let (f, t) = s.closed y o in
                      (
                        has_exit_mono p.visited p.order (exits y).0 done f,
                        has_exit_mono p.visited p.order (exits y).1 done t,
                      )))
                  (some root) (done root all.traversed.reached) r,
          ),
        )
