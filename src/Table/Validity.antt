-- ===== src/Table/Validity.antt =====
-- SymbolTable.cpp: well-formed chains of tables, and the two ways in which an operation changes one.
use caramel.Prelude.{
  Bool, subst, String, ◌≡◌, true, some, [], ◌∷◌, All, lookup, insert, arith, str_eq, eq_iff,
  Option-cases, Bool-cases, inl, inr,
}
use caramel.Symbols.{Node, Symbol, type_symbol}
use caramel.Symbols
use caramel.Table.{SymbolMap, SymbolTable, root, child, put, modify, expire, expire_map}
use caramel.Table.Variables.{has_type}

-- A symbol is filed under its own name, and is declared if it is that of a type.
pub record IsFiled (name : String) (s : Symbol) : Type 0 where
  pub named : s.name ≡ name
  pub marked : has_type type_symbol s ≡ true → Symbols.is_declared s ≡ true

abbrev pub IsValidMap : SymbolMap → Type 0
IsValidMap = All (λ entry. IsFiled entry.0 entry.1)

abbrev pub IsValid : SymbolTable → Type 0
IsValid (root m) = IsValidMap m
IsValid (child m parent) = IsValidMap m × IsValid parent

-- A change to a symbol that keeps it well filed.
abbrev pub Keeps : (Symbol → Symbol) → Type 0
Keeps f = (name : String) (s : Symbol) → IsFiled name s → IsFiled name (f s)

pub lookup-IsFiled :
    (name : String) (m : SymbolMap) {s : Symbol}
    → IsValidMap m
    → lookup name m ≡ some s
    → IsFiled name s
unfolding lookup
lookup-IsFiled name [] v h = absurd (cc)
lookup-IsFiled name ((k, r) ∷ m) {s = s} (e, v) h = elim (Bool-cases (str_eq k name)) [
  | inl same ↦
      (let k-name : k ≡ name = (eq_iff k name).0 same in
        let r-s : r ≡ s = ground arith in
        subst (λ x. IsFiled name x) r-s (subst (λ x. IsFiled x r) k-name e))
  | inr other ↦ lookup-IsFiled name m v (ground arith)
]

insert-IsValidMap :
    (name : String) (s : Symbol) (m : SymbolMap)
    → IsFiled name s
    → IsValidMap m
    → IsValidMap (insert name s m)
unfolding insert
insert-IsValidMap name s [] e v = (e, tt)
insert-IsValidMap name s ((k, r) ∷ m) e (e', v) = elim (Bool-cases (str_eq k name)) [
  | inl same ↦ rw same (e, v)
  | inr other ↦ rw other (e', insert-IsValidMap name s m e v)
]

pub put-IsValid :
    (name : String) (s : Symbol) (t : SymbolTable)
    → IsFiled name s
    → IsValid t
    → IsValid (put name s t)
unfolding put
put-IsValid name s (root m) e v = insert-IsValidMap name s m e v
put-IsValid name s (child m parent) e (v, w) = (insert-IsValidMap name s m e v, w)

pub modify-IsValid :
    (name : String) (f : Symbol → Symbol) (t : SymbolTable)
    → Keeps f
    → IsValid t
    → IsValid (modify name f t)
unfolding modify
modify-IsValid name f (root m) k v = elim (Option-cases (lookup name m)) [
  | inl e ↦ rw (e, IsValid) v
  | inr (s, e) ↦
      rw (e, IsValid) (insert-IsValidMap name (f s) m (k name s (lookup-IsFiled name m v e)) v)
]
modify-IsValid name f (child m parent) k (v, w) = elim (Option-cases (lookup name m)) [
  | inl e ↦ rw (e, IsValid) (v, modify-IsValid name f parent k w)
  | inr (s, e) ↦
      rw (e, IsValid) (insert-IsValidMap name (f s) m (k name s (lookup-IsFiled name m v e)) v, w)
]

-- The destruction of nodes leaves a well-formed chain well formed.
expire-IsFiled :
    (dead : Node → Bool) (name : String) (s : Symbol)
    → IsFiled name s
    → IsFiled name (Symbols.expire dead s)
unfolding Symbols.expire Symbols.is_declared has_type
expire-IsFiled dead name s filed = ground (arith, filed.named, filed.marked)

expire-IsValidMap :
    (dead : Node → Bool) (m : SymbolMap) → IsValidMap m → IsValidMap (expire_map dead m)
unfolding expire_map
expire-IsValidMap dead [] v = v
expire-IsValidMap dead ((name, s) ∷ m) (e, v) =
    (expire-IsFiled dead name s e, expire-IsValidMap dead m v)

pub expire-IsValid : (dead : Node → Bool) (t : SymbolTable) → IsValid t → IsValid (expire dead t)
unfolding expire
expire-IsValid dead (root m) v = expire-IsValidMap dead m v
expire-IsValid dead (child m parent) (v, w) =
    (expire-IsValidMap dead m v, expire-IsValid dead parent w)
