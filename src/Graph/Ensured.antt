-- ===== src/Graph/Ensured.antt =====
-- What holds after a part of the construction of a graph, and whether the part may fail.
use caramel.Prelude.{◌≡◌, refl, Bool, false, none, some}
use caramel.Graph.{◌>>=◌ as ◌followed_by◌, Graph, Lower, pure}

-- The result of the part on a graph satisfies `Q`, or the part fails and `total` does not hold.
pub data Ensured {A : Type 0} (total : Bool) (part : Lower A) (g : Graph) (Q : A → Graph → Type 0)
    : Type 0 where
  done : (a : A) (g' : Graph) → part g ≡ some (a, g') → Q a g' → Ensured total part g Q
  failed : total ≡ false → part g ≡ none → Ensured total part g Q

module _ {total : Bool} {A B : Type 0} {R : B → Graph → Type 0} where
  infixl 5 ◌>>=◌
  pub ◌>>=◌ :
      {Q : A → Graph → Type 0} {part : Lower A} {rest : A → Lower B} {g : Graph}
      → Ensured total part g Q
      → ((a : A) (g' : Graph) → Q a g' → Ensured total (rest a) g' R)
      → Ensured total (part followed_by rest) g R
  unfolding ◌followed_by◌
  done a g' e q >>= h = elim (h a g' q) [
    | done b g'' e' r ↦ done b g'' (rw (e, ◌followed_by◌) e') r
    | failed t e' ↦ failed t (rw (e, ◌followed_by◌) e')
  ]
  failed t e >>= h = failed t (rw (e, ◌followed_by◌) refl)

  -- A part that reads the graph.
  pub read :
      (f : Graph → A) (rest : A → Lower B) {g : Graph}
      → Ensured total (rest (f g)) g R
      → Ensured total ((λ h. some (f h, h)) followed_by rest) g R
  unfolding ◌followed_by◌
  read f rest (done b g' e r) = done b g' e r
  read f rest (failed t e) = failed t e

module _ {total : Bool} {A : Type 0} {g : Graph} where
  pub weaken :
      {Q R : A → Graph → Type 0} {part : Lower A}
      → Ensured total part g Q
      → ((a : A) (g' : Graph) → Q a g' → R a g')
      → Ensured total part g R
  weaken (done a g' e q) h = done a g' e (h a g' q)
  weaken (failed t e) h = failed t e

  pub pure_lem : {Q : A → Graph → Type 0} {a : A} → Q a g → Ensured total (pure a) g Q
  pure_lem {a = a} q = done a g refl q
