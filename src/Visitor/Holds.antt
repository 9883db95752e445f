-- ===== src/Visitor/Holds.antt =====
-- src/visitors: what a visit keeps of the state of the visitor, on every outcome, and what it returns.
use caramel.Prelude.{
  Bool, ◌∷◌, subst, ℕ, suc, ◌≡◌, refl, ap, ◌∙◌, Option, none, some, [], true, false, if◌then◌else◌,
}
use caramel.Table.{SymbolTable, child, expire}
use caramel.Symbols.{Node, Symbol}
use caramel.Table.Variables.{Added}
use caramel.Table.Errors.{Result, ok, err, fatal}
use caramel.Table.Operations.{Operation, Within, here, run, table_of}
use caramel.Visitor.{
  State, Outcome, done, thrown, stopped, Visit, ◌>>=◌ as ◌followed_by◌, handled, left, then_,
  finish, popped, pure, stop, new_node, last_node, keep, is_semantic, on_table, catch, in_context,
  deref,
}

-- `P` holds of what is returned, and `I` of the state, which an exception leaves behind as well.
pub data Post {A : Type 0} (P : A → Type 0) (I : State → Type 0) : Outcome A → Type 0 where
  returned : {a : A} {s : State} → P a → I s → Post P I (done a s)
  raised : {s : State} → I s → Post P I (thrown s)
  ended : Post P I stopped

pub record Holds {A : Type 0} (I : State → Type 0) (P : A → Type 0) (v : Visit A) : Type 0 where
  pub holds : (s : State) → I s → Post P I (v s)

-- A chain of tables after a visit's use of it: the same, or changed by an operation of the table.
pub data Moved (t : SymbolTable) : SymbolTable → Type 0 where
  unmoved : Moved t t
  operated : {u : SymbolTable} (op : Operation) → Within op t u → Moved t u

-- What an invariant has to satisfy: the visitor changes its state in these ways only.
pub record IsKept (I : State → Type 0) : Type 0 where
  pub counts_nodes : (s : State) → I s → I (record s { nodes = suc s.nodes })
  pub counts_errors : (s : State) → I s → I (record s { error_count = suc s.error_count })
  pub destroys :
      (s : State) (dead : Node → Bool) → I s → I (record s { table = expire dead s.table })
  pub keeps : (s : State) (first : Node) → I s → I (record s { kept = (first, s.nodes) ∷ s.kept })
  pub moves : (s : State) (u : SymbolTable) → Moved s.table u → I s → I (record s { table = u })

-- What a family of invariants, one for each depth of contexts, has to satisfy.
pub record IsNested (I : ℕ → State → Type 0) : Type 0 where
  pub kept : (d : ℕ) → IsKept (I d)
  pub enters : (d : ℕ) (s : State) → I d s → I (suc d) (record s { table = child [] s.table })
  pub leaves : (d : ℕ) (s : State) → I (suc d) s → I d (popped s)

-- What a sequence returned, it returned through its first part.
pub then_-done :
    {A B : Type 0} (r : Outcome A) {f : A → Visit B} {b : B} {s : State}
    → then_ r f ≡ done b s
    → (a : A) × (t : State) × (r ≡ done a t) × (f a t ≡ done b s)
then_-done (done a t) h = (a, t, refl, h)
then_-done (thrown t) h = absurd (cc (h))
then_-done stopped h = absurd (cc (h))

module _ {I : State → Type 0} where
  pub then_-Post :
      {A B : Type 0} {P : A → Type 0} {Q : B → Type 0} {r : Outcome A} {f : A → Visit B}
      → Post P I r
      → ((a : A) → P a → Holds I Q (f a))
      → Post Q I (then_ r f)
  then_-Post (returned p i) k = (k _ p).holds _ i
  then_-Post (raised i) k = raised i
  then_-Post ended k = ended

  infixl 5 ◌>>=◌
  pub ◌>>=◌ :
      {A B : Type 0} {P : A → Type 0} {Q : B → Type 0} {v : Visit A} {f : A → Visit B}
      → Holds I P v
      → ((a : A) → P a → Holds I Q (f a))
      → Holds I Q (v followed_by f)
  unfolding ◌followed_by◌
  h >>= k = record { holds = λ s i. then_-Post (h.holds s i) k }

  pub pure_lem : {A : Type 0} {P : A → Type 0} {a : A} → P a → Holds I P (pure a)
  pure_lem p = record { holds = λ s i. returned p i }

  pub stop_lem : {A : Type 0} {P : A → Type 0} → Holds I P (stop {A = A})
  stop_lem = record { holds = λ s i. ended }

  weaken-Post :
      {A : Type 0} {P Q : A → Type 0} {r : Outcome A}
      → ((a : A) → P a → Q a)
      → Post P I r
      → Post Q I r
  weaken-Post h (returned p i) = returned (h _ p) i
  weaken-Post h (raised i) = raised i
  weaken-Post h ended = ended

  pub weaken :
      {A : Type 0} {P Q : A → Type 0} {v : Visit A}
      → Holds I P v
      → ((a : A) → P a → Q a)
      → Holds I Q v
  weaken h f = record { holds = λ s i. weaken-Post f (h.holds s i) }

  module _ (k : IsKept I) where
    pub new_node-Holds : Holds I (λ _. Unit {0}) new_node
    new_node-Holds = record { holds = λ s i. returned tt (k.counts_nodes s i) }

    pub handled-Post :
        {A : Type 0} {P : A → Type 0} (start : Node) (a : A) {r : Outcome A}
        → P a
        → Post P I r
        → Post P I (handled start a r)
    handled-Post start a p (returned q i) = returned q i
    handled-Post start a p (raised i) = returned p (k.counts_errors _ (k.destroys _ _ i))
    handled-Post start a p ended = ended

    pub keep-Holds : (first : Node) → Holds I (λ _. Unit {0}) (keep first)
    keep-Holds first = record { holds = λ s i. returned tt (k.keeps s first i) }

    pub catch-Holds :
        {A : Type 0} {P : A → Type 0} (a : A) {v : Visit A}
        → P a
        → Holds I P v
        → Holds I P (catch a v)
    unfolding catch
    catch-Holds a p h = record { holds = λ s i. handled-Post s.nodes a p (h.holds s i) }

    finish-Post :
        {A : Type 0} {P : A → Type 0} (s : State) (r : Result (A × SymbolTable))
        → I s
        → ((a : A) (u : SymbolTable) → r ≡ ok (a, u) → Moved s.table u × P a)
        → Post P I (finish s r)
    finish-Post s (ok (a, u)) i h = let (m, p) = h a u refl in returned p (k.moves s u m i)
    finish-Post {A} {P} s (err e) i h =
        elim (is_semantic e) as (λ b. Post {A = A} P I (if b then thrown s else stopped)) [
          | true ↦ raised i
          | false ↦ ended
        ]
    finish-Post s fatal i h = ended

    pub on_table-Holds :
        {A : Type 0} {P : A → Type 0} {operation : SymbolTable → Result (A × SymbolTable)}
        → ((t : SymbolTable) (a : A) (u : SymbolTable) → operation t ≡ ok (a, u) → Moved t u × P a)
        → Holds I P (on_table operation)
    unfolding on_table
    on_table-Holds {operation = operation} h = record {
      holds = λ s i. finish-Post s (operation s.table) i (λ a u e. h s.table a u e);
    }

  pub last_node-Holds : Holds I (λ _. Unit {0}) last_node
  last_node-Holds = record { holds = λ s i. returned tt i }

  pub deref-Holds :
      {A : Type 0} {P : A → Type 0} (o : Option A)
      → ((a : A) → o ≡ some a → P a)
      → Holds I P (deref o)
  deref-Holds none h = record { holds = λ s i. ended }
  deref-Holds (some a) h = pure_lem (h a refl)

module _ {I : ℕ → State → Type 0} (k : IsNested I) (d : ℕ) where
  left-Post :
      {A : Type 0} {P : A → Type 0} {r : Outcome A} → Post P (I (suc d)) r → Post P (I d) (left r)
  left-Post (returned p i) = returned p (k.leaves d _ i)
  left-Post (raised i) = raised (k.leaves d _ i)
  left-Post ended = ended

  pub in_context-Holds :
      {A : Type 0} {P : A → Type 0} {v : Visit A}
      → Holds (I (suc d)) P v
      → Holds (I d) P (in_context v)
  unfolding in_context
  in_context-Holds h = record { holds = λ s i. left-Post (h.holds _ (k.enters d s i)) }

module _ {A : Type 0} {P : A → Type 0} {I : State → Type 0} {r : Outcome A} where
  pub done-kept : Post P I r → (a : A) (s : State) → r ≡ done a s → I s
  done-kept q a s e = elim (subst (λ o. Post P I o) e q) [ returned p i ↦ i ]

  pub thrown-kept : Post P I r → (s : State) → r ≡ thrown s → I s
  thrown-kept q s e = elim (subst (λ o. Post P I o) e q) [ raised i ↦ i ]

-- An operation that runs in the current scope.
pub added-Moved :
    {t : SymbolTable} {s : Symbol} {u : SymbolTable} (r : Result Added) (op : Operation)
    → run op t ≡ table_of r
    → r ≡ ok (s, u)
    → Moved t u
added-Moved r op e h = operated op (here (e ∙ ap (λ x. table_of x) h))

abbrev pub Anything : {A : Type 0} → A → Type 0
Anything _ = Unit {0}

pub operation-Holds :
    {I : State → Type 0}
    → IsKept I
    → (f : SymbolTable → Result Added) (op : Operation)
    → ((t : SymbolTable) → run op t ≡ table_of (f t))
    → Holds I Anything (on_table f)
operation-Holds k f op h = on_table-Holds k (λ t s u e. (added-Moved (f t) op (h t) e, tt))
