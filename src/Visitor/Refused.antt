-- ===== src/Visitor/Refused.antt =====
-- src/visitors and src/FrontEnd.cpp: an error that was counted is not forgotten.
use caramel.Prelude.{
  ◌≡◌, refl, sym, ap, subst, ◌≢◌, ◌<◌, ◌⊎◌, inl, inr, ◌==◌, false, none, List, [], ◌∷◌, ◌++◌, Bool,
  arith,
}
use caramel.Symbols.{Node}
use caramel.Parse
use caramel.Visitor.{
  State, Outcome, done, thrown, stopped, Visit, then_, handled, ◌>>=◌, catch, pure,
}
use caramel.Visitor.Holds.{
  Post, returned, Holds, IsNested, Anything, then_-done, then_-Post, handled-Post, weaken,
}
use caramel.Visitor.Declarations.{Item}
use caramel.Visitor.Statements.{both, visit_statement, visit_statements}
use caramel.Visitor.Programs.{visit_statement-Holds, visit_statements-Holds}
use caramel.Visitor.Root.{
  visit_r, primary_types, prelude_functions, start_state, accepted, front_end, add_primary_types,
  declare_prelude,
}

abbrev pub HasError : State → Type 0
HasError s = 0 < s.error_count

pub HasError-IsNested : IsNested (λ _. HasError)
HasError-IsNested = record {
  kept = λ d. record {
    counts_nodes = λ s h. h;
    counts_errors = λ s h. omega arith;
    destroys = λ s dead h. h;
    keeps = λ s first h. h;
    moves = λ s u m h. h;
  };
  enters = λ d s h. h;
  leaves = λ d s h. h;
}

pub accepted-HasError :
    {P : List Item → Type 0} (r : Outcome (List Item)) → Post P HasError r → accepted r ≡ none
accepted-HasError (done items s) (returned p h) =
    let e : (s.error_count == 0) ≡ false = ground arith in rw e
accepted-HasError (thrown s) p = refl
accepted-HasError stopped p = refl

abbrev pub Counted : Outcome (List Item) → Type 0
Counted r = Post Anything HasError r

abbrev state_of : {A : Type 0} → State → Outcome A → State
state_of t (done a s) = s
state_of t _ = t

abbrev pub Returns : {A : Type 0} → Outcome A → Type 0
Returns r = (s : State) → r ≢ thrown s

pub handled-Returns :
    {A : Type 0} (start : Node) (a : A) (r : Outcome A) → Returns (handled start a r)
handled-Returns start a (done b s) t h = absurd (cc (h))
handled-Returns start a (thrown s) t h = absurd (cc (h))
handled-Returns start a stopped t h = absurd (cc (h))

handled-done :
    {A : Type 0} (start : Node) (a : A) {b : A} {s : State} (r : Outcome A)
    → Returns r
    → handled start a r ≡ done b s
    → r ≡ done b s
handled-done start a (done c t) p h = h
handled-done start a (thrown t) p h = absurd (p t refl)
handled-done start a stopped p h = h

then_-Returns :
    {A B : Type 0} {r : Outcome A} {f : A → Visit B}
    → Returns r
    → ((a : A) (s : State) → Returns (f a s))
    → Returns (then_ r f)
then_-Returns {r = done a s} p q = q a s
then_-Returns {r = thrown s} p q = λ t _. p s refl
then_-Returns {r = stopped} p q = λ t h. absurd (cc (h))

pure-Counted : (items : List Item) → Holds HasError Anything (pure items)
pure-Counted items = record { holds = λ s h. returned tt h }

pub append-Counted :
    {r : Outcome (List Item)} (items : List Item)
    → Counted r
    → Counted (then_ r (λ others. pure (items ++ others)))
append-Counted items c = then_-Post c (λ others _. pure-Counted (items ++ others))

abbrev pub Fails : Outcome (List Item) → Type 0
Fails r =
    ((s : State) × (r ≡ thrown s))
    ⊎ ((items : List Item) × (s : State) × (r ≡ done items s) × HasError s)

handled-Counted : (start : Node) {r : Outcome (List Item)} → Fails r → Counted (handled start [] r)
handled-Counted start (inl (s, e)) = rw e (returned tt (omega arith))
handled-Counted start (inr (items, s, e, h)) = rw e (returned tt h)

module _ (left_first : Bool) where
  visit_statement-Counted :
      (statement : Parse.Statement) (s : State)
      → HasError s
      → Counted (visit_statement left_first statement s)
  visit_statement-Counted statement s h =
      (weaken (visit_statement-Holds HasError-IsNested left_first 0 statement) (λ _ _. tt)).holds s
        h

  pub visit_statements-HasError :
      (ss : List Parse.Statement) → Holds HasError Anything (visit_statements left_first ss)
  visit_statements-HasError ss =
      weaken (visit_statements-Holds HasError-IsNested left_first 0 ss) (λ _ _. tt)

  visit_statements-Returns :
      (ss : List Parse.Statement) (s : State) → Returns (visit_statements left_first ss s)
  unfolding visit_statements both ◌>>=◌ catch
  visit_statements-Returns [] s = λ t h. absurd (cc (h))
  visit_statements-Returns (b ∷ bs) s =
      then_-Returns (handled-Returns s.nodes [] (visit_statement left_first b s))
        (λ items t. then_-Returns (visit_statements-Returns bs t) (λ others u v h. absurd (cc (h))))

  -- An error in what follows some statements that were visited.
  visit_statements-Counted :
      (before rest : List Parse.Statement) (s : State) {items : List Item} {s' : State}
      → visit_statements left_first before s ≡ done items s'
      → Counted (visit_statements left_first rest s')
      → Counted (visit_statements left_first (before ++ rest) s)
  unfolding visit_statements both ◌>>=◌
  visit_statements-Counted [] rest s h c =
      subst (λ t. Counted (visit_statements left_first rest t)) (sym (ap (λ r. state_of s r) h)) c
  visit_statements-Counted (b ∷ bs) rest s h c =
      let (first, t, e, more) = then_-done (catch [] (visit_statement left_first b) s) h in
      let (others, u, e', last) = then_-done (visit_statements left_first bs t) more in
      let same = ap (λ r. state_of s r) last in
      let c' = subst (λ t. Counted (visit_statements left_first rest t)) (sym same) c in
      rw e (append-Counted first (visit_statements-Counted bs rest t e' c'))

  -- The root context.
  caught-Counted :
      (before rest : List Parse.Statement) (s : State) {items : List Item} {s' : State}
      → catch [] (visit_statements left_first before) s ≡ done items s'
      → Counted (visit_statements left_first rest s')
      → Counted (catch [] (visit_statements left_first (before ++ rest)) s)
  unfolding catch
  caught-Counted before rest s h c =
      let r = visit_statements left_first before s in
      let e = handled-done s.nodes [] r (visit_statements-Returns before s) h in
      handled-Post (HasError-IsNested.kept 0) s.nodes [] tt
        (visit_statements-Counted before rest s e c)

  -- A statement that fails, before others.
  pub Fails-Counted :
      (statement : Parse.Statement) (after : List Parse.Statement) (s : State)
      → Fails (visit_statement left_first statement s)
      → Counted (visit_statements left_first (statement ∷ after) s)
  unfolding visit_statements both ◌>>=◌ catch
  Fails-Counted statement after s f = then_-Post (handled-Counted s.nodes f) (λ items _. record {
    holds = λ t h. append-Counted items ((visit_statements-HasError after).holds t h);
  })

-- No error is forgotten: when the statements before one were visited, and the visit of that one throws a
-- `SemanticError`, or returns where an error was counted, the front end refuses the program, whatever
-- follows it.
pub front_end-refuses :
    (left_first : Bool) (before after : List Parse.Statement) (statement : Parse.Statement)
    (items : List Item) (s : State)
    → visit_r left_first before start_state ≡ done items s
    → Fails (visit_statement left_first statement s)
    → front_end left_first (before ++ statement ∷ after) ≡ none
unfolding front_end visit_r ◌>>=◌
front_end-refuses left_first before after statement items s h f =
    let (_, t, typed, h') = then_-done (add_primary_types primary_types _) h in
    let (_, u, declared, h'') = then_-done (declare_prelude prelude_functions t) h' in
    let c =
      caught-Counted left_first before (statement ∷ after) u h''
        (Fails-Counted left_first statement after s f) in
    accepted-HasError {P = Anything} (visit_r left_first (before ++ statement ∷ after) start_state)
      (rw (typed, declared) c)
