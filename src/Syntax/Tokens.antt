-- ===== src/Syntax/Tokens.antt =====
-- src/ast/operators: the tokens of the operators, and the tables that find the operator of a token.
use caramel.Prelude.{
  subst, sym, ◌∙◌, if◌then◌else◌, String, Bool, true, false, All, str_eq, eq_iff, ◌≡◌, ◌↔◌, refl,
  inl, inr, Option, none, some, List, [], ◌∷◌, ap, Bool-cases,
}
use caramel.Lowering.{option_cases}
use caramel.Syntax.{
  BinaryOperator, UnaryOperator, plus, minus, mult, div, modulo, right_shift, left_shift,
  lower_than, lower_eq_than, greater_than, greater_eq_than, equality, not_eq, bitwise_and,
  bitwise_xor, bitwise_or, conjunction, disjunction, assignment, plus_assignment, minus_assignment,
  times_assignment, div_assignment, mod_assignment, bitwise_and_assignment, bitwise_or_assignment,
  bitwise_xor_assignment, left_shift_assignment, right_shift_assignment, pre_incr, pre_decr,
  logical_not, pre_neg, post_inc, post_decr,
}

-- `getToken`, which returns `SYMBOL`.
unfoldable pub get_token : BinaryOperator → String
get_token plus = "+"
get_token minus = "-"
get_token mult = "*"
get_token div = "/"
get_token modulo = "%"
get_token right_shift = ">>"
get_token left_shift = "<<"
get_token lower_than = "<"
get_token lower_eq_than = "<="
get_token greater_than = ">"
get_token greater_eq_than = ">="
get_token equality = "=="
get_token not_eq = "!="
get_token bitwise_and = "&"
get_token bitwise_xor = "^"
get_token bitwise_or = "|"
get_token conjunction = "&&"
get_token disjunction = "||"
get_token assignment = "="
get_token plus_assignment = "+="
get_token minus_assignment = "-="
get_token times_assignment = "*="
get_token div_assignment = "/="
get_token mod_assignment = "%="
get_token bitwise_and_assignment = "&="
get_token bitwise_or_assignment = "|="
get_token bitwise_xor_assignment = "^="
get_token left_shift_assignment = "<<="
get_token right_shift_assignment = ">>="

unfoldable pub get_unary_token : UnaryOperator → String
get_unary_token pre_incr = "++"
get_unary_token pre_decr = "--"
get_unary_token logical_not = "!"
get_unary_token pre_neg = "-"
get_unary_token post_inc = "++"
get_unary_token post_decr = "--"

-- The constructor of `BinaryOperatorIndex`, with its calls of `BIND` from the last to the first: a map
-- that keeps the first entry of a token.
unfoldable pub binary_operators : List BinaryOperator
binary_operators =
    right_shift_assignment ∷ left_shift_assignment ∷ bitwise_xor_assignment ∷ bitwise_or_assignment
    ∷ bitwise_and_assignment ∷ mod_assignment ∷ div_assignment ∷ times_assignment ∷ minus_assignment
    ∷ plus_assignment ∷ assignment ∷ disjunction ∷ conjunction ∷ bitwise_or ∷ bitwise_xor
    ∷ bitwise_and ∷ not_eq ∷ equality ∷ greater_eq_than ∷ greater_than ∷ lower_eq_than ∷ lower_than
    ∷ left_shift ∷ right_shift ∷ modulo ∷ div ∷ mult ∷ minus ∷ plus ∷ []

unfoldable pub prefix_operators : List UnaryOperator
prefix_operators = pre_neg ∷ logical_not ∷ pre_decr ∷ pre_incr ∷ []

unfoldable pub postfix_operators : List UnaryOperator
postfix_operators = post_decr ∷ post_inc ∷ []

-- The entry of a token among operators that were bound from the last to the first.
unfoldable pub bound : {A : Type 0} → (A → String) → List A → String → Option A
bound token [] t = none
bound token (o ∷ os) t = elim (bound token os t) [
  | some earlier ↦ some earlier
  | none ↦ (if str_eq (token o) t then some o else none)
]

-- `getOpForToken`; `none` is the `exit` of the first, and the null pointer of the others.
unfoldable pub get_op_for_token : String → Option BinaryOperator
unfolding bound binary_operators get_token
get_op_for_token = bound get_token binary_operators

unfoldable pub get_prefix_op_for_token : String → Option UnaryOperator
unfolding bound prefix_operators get_unary_token
get_prefix_op_for_token = bound get_unary_token prefix_operators

unfoldable pub get_postfix_op_for_token : String → Option UnaryOperator
unfolding bound postfix_operators get_unary_token
get_postfix_op_for_token = bound get_unary_token postfix_operators

bound-token :
    {A : Type 0} (token : A → String) (os : List A) (t : String) (o : A)
    → bound token os t ≡ some o
    → token o ≡ t
unfolding bound
bound-token token [] t o h = absurd (cc (h))
bound-token token (p ∷ os) t o h = elim (option_cases (bound token os t)) [
  | inl (q, e) ↦ bound-token token os t o (e ∙ (rw (bound, e) at h))
  | inr e ↦ elim (Bool-cases (str_eq (token p) t)) [
    | inl same ↦ ap token (sym (some-injective (rw (bound, e, same) at h))) ∙ (eq_iff _ _).0 same
    | inr differs ↦ absurd (cc (rw (bound, e, differs) at h))
  ]
]
  where
    some-injective : {A : Type 0} {x y : A} → some x ≡ some y → x ≡ y
    some-injective {x = x} e = ap (λ z. elim z [ some a ↦ a | none ↦ x ]) e

each : (o : BinaryOperator) → bound get_token binary_operators (get_token o) ≡ some o
unfolding bound binary_operators get_token
each plus = refl
each minus = refl
each mult = refl
each div = refl
each modulo = refl
each right_shift = refl
each left_shift = refl
each lower_than = refl
each lower_eq_than = refl
each greater_than = refl
each greater_eq_than = refl
each equality = refl
each not_eq = refl
each bitwise_and = refl
each bitwise_xor = refl
each bitwise_or = refl
each conjunction = refl
each disjunction = refl
each assignment = refl
each plus_assignment = refl
each minus_assignment = refl
each times_assignment = refl
each div_assignment = refl
each mod_assignment = refl
each bitwise_and_assignment = refl
each bitwise_or_assignment = refl
each bitwise_xor_assignment = refl
each left_shift_assignment = refl
each right_shift_assignment = refl

-- The table finds the operator of every token, and under a token nothing else: an operator is found for
-- a token exactly when it is its token.
pub get_op_for_token_iff :
    (t : String) (o : BinaryOperator) → (get_op_for_token t ≡ some o) ↔ (get_token o ≡ t)
unfolding get_op_for_token
get_op_for_token_iff t o = (
  bound-token get_token binary_operators t o,
  λ e. subst (λ s. bound get_token binary_operators s ≡ some o) e (each o),
)

-- The operators whose classes are `PrefixUnaryOperator`s; the others are `PostfixUnaryOperator`s.
unfoldable pub is_prefix : UnaryOperator → Bool
is_prefix post_inc = false
is_prefix post_decr = false
is_prefix _ = true

each_prefix :
    (o : UnaryOperator)
    → is_prefix o ≡ true
    → bound get_unary_token prefix_operators (get_unary_token o) ≡ some o
unfolding bound prefix_operators get_unary_token is_prefix
each_prefix pre_incr h = refl
each_prefix pre_decr h = refl
each_prefix logical_not h = refl
each_prefix pre_neg h = refl
each_prefix post_inc h = absurd (cc (h))
each_prefix post_decr h = absurd (cc (h))

each_postfix :
    (o : UnaryOperator)
    → is_prefix o ≡ false
    → bound get_unary_token postfix_operators (get_unary_token o) ≡ some o
unfolding bound postfix_operators get_unary_token is_prefix
each_postfix post_inc h = refl
each_postfix post_decr h = refl
each_postfix pre_incr h = absurd (cc (h))
each_postfix pre_decr h = absurd (cc (h))
each_postfix logical_not h = absurd (cc (h))
each_postfix pre_neg h = absurd (cc (h))

-- What a table finds has the property that all of its operators have.
bound_kind :
    {A : Type 0} (token : A → String) (test : A → Bool) (kind : Bool) (os : List A)
    → All (λ p. test p ≡ kind) os
    → (t : String) (o : A) → bound token os t ≡ some o
    → test o ≡ kind
unfolding bound
bound_kind token test kind [] a t o h = absurd (cc (h))
bound_kind token test kind (p ∷ os) (a, rest) t o h = elim (option_cases (bound token os t)) [
  | inl (q, e) ↦ bound_kind token test kind os rest t o (e ∙ (rw (bound, e) at h))
  | inr e ↦ elim (Bool-cases (str_eq (token p) t)) [
    | inl same ↦ ap test (sym (some-injective (rw (bound, e, same) at h))) ∙ a
    | inr differs ↦ absurd (cc (rw (bound, e, differs) at h))
  ]
]
  where
    some-injective : {A : Type 0} {x y : A} → some x ≡ some y → x ≡ y
    some-injective {x = x} e = ap (λ z. elim z [ some a ↦ a | none ↦ x ]) e

prefix_kinds : All (λ o. is_prefix o ≡ true) prefix_operators
unfolding prefix_operators is_prefix
prefix_kinds = (refl, (refl, (refl, (refl, tt))))

postfix_kinds : All (λ o. is_prefix o ≡ false) postfix_operators
unfolding postfix_operators is_prefix
postfix_kinds = (refl, (refl, tt))

-- The two tables of unary operators share the tokens `++` and `--` and are told apart by the kind of
-- their operators: the first finds an operator for a token exactly when it is its token and the operator
-- a prefix one, and the second exactly when it is its token and the operator a postfix one.
pub get_prefix_op_for_token_iff :
    (t : String) (o : UnaryOperator)
    → ((get_prefix_op_for_token t ≡ some o) ↔ ((get_unary_token o ≡ t) × (is_prefix o ≡ true)))
      × ((get_postfix_op_for_token t ≡ some o) ↔ ((get_unary_token o ≡ t) × (is_prefix o ≡ false)))
unfolding get_prefix_op_for_token get_postfix_op_for_token
get_prefix_op_for_token_iff t o = (
  (
    λ h. (
      bound-token get_unary_token prefix_operators t o h,
      bound_kind get_unary_token is_prefix true prefix_operators prefix_kinds t o h,
    ),
    λ (e, p). subst (λ s. bound get_unary_token prefix_operators s ≡ some o) e (each_prefix o p),
  ),
  (
    λ h. (
      bound-token get_unary_token postfix_operators t o h,
      bound_kind get_unary_token is_prefix false postfix_operators postfix_kinds t o h,
    ),
    λ (e, p). subst (λ s. bound get_unary_token postfix_operators s ≡ some o) e (each_postfix o p),
  ),
)
