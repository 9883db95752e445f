-- ===== src/Visitor/Typedefs.antt =====
-- ASTVisitor.cpp, `visitTypeDefinition`: the definition of a type.
use caramel.Prelude.{
  ◌≡◌, ◌≢◌, sym, ap, subst, String, true, Option, none, some, List, Option-cases, Bool-cases, inl,
  inr, arith, lookup,
}
use caramel.Types.{PrimaryType}
use caramel.Symbols.{Node, Symbol, type_symbol}
use caramel.Symbols
use caramel.Table.{SymbolTable, root, child, get_symbol, is_declared}
use caramel.Table.Errors.{Result, ok, err, fatal}
use caramel.Table.Variables.{require, has_type}
use caramel.Table.TypeNames.{add_type}
use caramel.Table.Validity.{IsFiled, IsValid, lookup-IsFiled}
use caramel.Table.Operations.{Reach}
use caramel.Table.Operations.Reached.{Reach-IsValid}
use caramel.Visitor.{
  State, Outcome, done, ◌>>=◌, on_table, finish, is_semantic, type_of_name, deref,
  visit_type_parameter,
}
use caramel.Visitor.Holds.{then_-done}
use caramel.Visitor.Declarations.{Item, visit_type_definition}

get_symbol-IsFiled :
    (name : String) (t : SymbolTable) {s : Symbol}
    → IsValid t
    → get_symbol name t ≡ some s
    → IsFiled name s
unfolding get_symbol
get_symbol-IsFiled name (root m) v h = lookup-IsFiled name m v h
get_symbol-IsFiled name (child m parent) (v, w) h = elim (Option-cases (lookup name m)) [
  | inl e ↦ get_symbol-IsFiled name parent w (ground arith)
  | inr (r, e) ↦ lookup-IsFiled name m v (ground arith)
]

get_symbol-is_declared :
    (name : String) (t : SymbolTable) {s : Symbol}
    → get_symbol name t ≡ some s
    → Symbols.is_declared s ≡ true
    → is_declared name t ≡ true
unfolding get_symbol is_declared
get_symbol-is_declared name (root m) h d = ground arith
get_symbol-is_declared name (child m parent) h d = elim (Option-cases (lookup name m)) [
  | inl e ↦ ground (arith, get_symbol-is_declared name parent (ground arith) d)
  | inr (r, e) ↦ ground arith
]

type_of_name-Resolved :
    (name : String) (t : SymbolTable) {o : Option Symbol} {u : SymbolTable}
    → type_of_name name t ≡ ok (o, u)
    → (u ≡ t)
      × ((s : Symbol) → o ≡ some s → (get_symbol name t ≡ some s) × (has_type type_symbol s ≡ true))
unfolding require
type_of_name-Resolved name t h = elim (Option-cases (get_symbol name t)) [
  | inl e ↦ absurd (ground arith)
  | inr (r, e) ↦ elim (Bool-cases (has_type type_symbol r)) [
    | inl k ↦ (ground arith, λ s q. (ground arith, ground arith))
    | inr k ↦ (ground arith, λ s q. (ground arith, ground arith))
  ]
]

finish-done :
    {A : Type 0} (s : State) (r : Result (A × SymbolTable)) {a : A} {s' : State}
    → finish s r ≡ done a s'
    → r ≡ ok (a, s'.table)
finish-done s (ok (b, t)) h = ap (λ o. table_in o) h
  where
    table_in : {A : Type 0} → Outcome A → Result (A × SymbolTable)
    table_in (done a s) = ok (a, s.table)
    table_in _ = fatal
finish-done s (err e) h = elim (Bool-cases (is_semantic e)) [
  | inl k ↦ absurd (cc (rw k at h))
  | inr k ↦ absurd (cc (rw k at h))
]
finish-done s fatal h = absurd (cc (h))

deref-done :
    {A : Type 0} (o : Option A) {a : A} {s s' : State}
    → deref o s ≡ done a s'
    → (o ≡ some a) × (s' ≡ s)
deref-done none h = absurd (cc (h))
deref-done (some b) {a} {s} h = (ap (λ o. value_in o) h, sym (ap (λ o. state_in o) h))
  where
    value_in : {A : Type 0} → Outcome A → Option A
    value_in (done a s) = some a
    value_in _ = none

    state_in : {A : Type 0} → Outcome A → State
    state_in (done a s) = s
    state_in _ = s

declared_type :
    (name : String) (t : SymbolTable) (a : Symbol)
    → Reach t
    → get_symbol name t ≡ some a
    → has_type type_symbol a ≡ true
    → is_declared a.name t ≡ true
declared_type name t a r g k =
    let filed = get_symbol-IsFiled name t (Reach-IsValid r) g in
    subst (λ n. is_declared n t ≡ true) (sym filed.named)
      (get_symbol-is_declared name t g (filed.marked k))

visit_type_parameter-done :
    (name : String) (s : State) {o : Option Symbol} {s' : State}
    → visit_type_parameter name s ≡ done o s'
    → Reach s.table
    → (s'.table ≡ s.table) × ((a : Symbol) → o ≡ some a → is_declared a.name s'.table ≡ true)
unfolding visit_type_parameter on_table
visit_type_parameter-done name s h r =
    let (same, resolved) = type_of_name-Resolved name s.table (finish-done s _ h) in
    (
      same,
      λ a e.
          let (g, k) = resolved a e in
          subst (λ t. is_declared a.name t ≡ true) (sym same) (declared_type name s.table a r g k),
    )

add_type-declared :
    (name : String) (type : PrimaryType) (node : Node) (s : State) {a : Symbol} {s' : State}
    → is_declared name s.table ≡ true
    → on_table (add_type name type node) s ≢ done a s'
unfolding on_table add_type
add_type-declared name type node s d h = absurd (cc (d, finish-done s _ h))

-- No definition of a type is accepted: where the operations of the symbol table have built the chain, the
-- visit of one does not return, since it looks up the new name among the types that exist.
pub visit_type_definition-refused :
    (primary alias : String) (s s' : State) (items : List Item)
    → Reach s.table
    → visit_type_definition primary alias s ≢ done items s'
unfolding visit_type_definition ◌>>=◌
visit_type_definition-refused primary alias s s' items r h =
    let (o, t, e, h1) = then_-done (visit_type_parameter primary s) h in
    let (p, u, f, h2) = then_-done (visit_type_parameter alias t) h1 in
    let (a, v, g, h3) = then_-done (deref p u) h2 in
    let (b, w, i, h4) = then_-done (deref o _) h3 in
    let (x, y, j, h5) = then_-done (on_table (add_type a.name b.type _) w) h4 in
    let (same, _) = visit_type_parameter-done primary s e r in
    let (_, declared) = visit_type_parameter-done alias t f (subst (λ t. Reach t) (sym same) r) in
    let (found, kept) = deref-done p g in
    let (_, counted) = deref-done o i in
    let d : is_declared a.name w.table ≡ true =
      subst (λ (z : State). is_declared a.name z.table ≡ true) (sym counted)
        (subst (λ (z : State). is_declared a.name z.table ≡ true) (sym kept) (declared a found)) in
    add_type-declared a.name b.type _ w d j
