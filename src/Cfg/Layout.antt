-- ===== src/Cfg/Layout.antt =====
-- CFG.cpp: the slots of a function's symbols lie inside its frame, and do not overlap.
use mathlib.Core.Option.{some-injective}
use caramel.Prelude.{
  zero, suc, Option-cases, sym, ◌∙◌, subst, ℕ, ◌==◌, ◌≡◌, ◌≢◌, ◌⊎◌, inl, inr, String, str_eq,
  eq_iff, some, lookup, lookup-insert, arith, Bool-cases,
}
use caramel.Prelude.Int.{ℤ, pos, ◌+ℤ◌, ◌-ℤ◌, ◌≤ℤ◌, ◌<ℤ◌, int_laws}
use caramel.Types.{PrimaryType}
use caramel.Cfg.{
  add_elements, add_array_symbol, element_name, Frame, Frames, write, stack_at, has_symbol, bytes,
  push_slot, place_slot, add_symbol, add_symbol_at,
}

-- The symbol `name` has a slot at `index` below the base pointer, as wide as `type`.
pub record Slot (f : Frame) (name : String) (index : ℤ) (type : PrimaryType) : Type 0 where
  pub typed : lookup name f.symbols ≡ some type
  pub indexed : lookup name f.symbol_index ≡ some index
  pub below : index <ℤ pos 0

pub record IsLaidOut (f : Frame) : Type 0 where
  pub downwards : stack_at f ≤ℤ pos 0
  pub inside :
      (name : String) (index : ℤ) (type : PrimaryType)
      → Slot f name index type
      → (stack_at f ≤ℤ index) × (index +ℤ pos (bytes type) ≤ℤ pos 0)
  pub apart :
      (name name' : String) (index index' : ℤ) (type type' : PrimaryType)
      → name ≢ name'
      → Slot f name index type
      → Slot f name' index' type'
      → (index +ℤ pos (bytes type) ≤ℤ index') ⊎ (index' +ℤ pos (bytes type') ≤ℤ index)

module _ (name : String) (type : PrimaryType) (f : Frame) where
  -- The slots after `push_slot`: the new one, and those that were there.
  push_slot-Slot :
      (n : String) (i : ℤ) (t : PrimaryType)
      → Slot (push_slot name type f) n i t
      → ((name ≡ n) × (i ≡ stack_at f -ℤ pos (bytes type)) × (t ≡ type))
        ⊎ ((name ≢ n) × Slot f n i t)
  unfolding push_slot
  push_slot-Slot n i t s = elim (Bool-cases (str_eq name n)) [
    | inl e ↦ inl (
      (eq_iff name n).0 e,
      ground
          (arith, s.indexed, lookup-insert name n (stack_at f -ℤ pos (bytes type)) f.symbol_index),
      ground (arith, s.typed, lookup-insert name n type f.symbols),
    )
    | inr e ↦ inr (
      (λ h. cc ((eq_iff name n).1 h, e)),
      record {
        typed = ground (arith, s.typed, lookup-insert name n type f.symbols);
        indexed = ground (
          arith,
          s.indexed,
          lookup-insert name n (stack_at f -ℤ pos (bytes type)) f.symbol_index,
        );
        below = s.below;
      },
    )
  ]

  -- The new slot lies between the new top of the stack and the old one.
  new_slot :
      (i : ℤ) (t : PrimaryType)
      → i ≡ stack_at f -ℤ pos (bytes type)
      → t ≡ type
      → (stack_at f -ℤ pos (bytes type) ≤ℤ i) × (i +ℤ pos (bytes t) ≤ℤ stack_at f)
  new_slot i t ei et = rw (ei, et) (omega int_laws)

  module _ (l : IsLaidOut f) where
    push_slot-inside :
        (n : String) (i : ℤ) (t : PrimaryType)
        → Slot (push_slot name type f) n i t
        → (stack_at f -ℤ pos (bytes type) ≤ℤ i) × (i +ℤ pos (bytes t) ≤ℤ pos 0)
    push_slot-inside n i t s = elim (push_slot-Slot n i t s) [
      | inl (e, ei, et) ↦ (let (a, b) = new_slot i t ei et in (a, omega (int_laws, b, l.downwards)))
      | inr (e, old) ↦ (let (a, b) = l.inside n i t old in (omega (int_laws, a), b))
    ]

    push_slot-apart :
        (n n' : String) (i i' : ℤ) (t t' : PrimaryType)
        → n ≢ n'
        → Slot (push_slot name type f) n i t
        → Slot (push_slot name type f) n' i' t'
        → (i +ℤ pos (bytes t) ≤ℤ i') ⊎ (i' +ℤ pos (bytes t') ≤ℤ i)
    push_slot-apart n n' i i' t t' d s s' = elim (push_slot-Slot n i t s) [
      | inl (e, ei, et) ↦ elim (push_slot-Slot n' i' t' s') [
        | inl (e', _, _) ↦ absurd (d (sym e ∙ e'))
        | inr (_, old) ↦
            (let b = (new_slot i t ei et).1 in
              let a = (l.inside n' i' t' old).0 in inl (omega (int_laws, a, b)))
      ]
      | inr (_, old) ↦ elim (push_slot-Slot n' i' t' s') [
        | inl (e', ei, et) ↦
            (let b = (new_slot i' t' ei et).1 in
              let a = (l.inside n i t old).0 in inr (omega (int_laws, a, b)))
        | inr (_, old') ↦ l.apart n n' i i' t t' d old old'
      ]
    ]

    pub push_slot-IsLaidOut : IsLaidOut (push_slot name type f)
    unfolding push_slot
    push_slot-IsLaidOut = record {
      downwards = omega (int_laws, l.downwards);
      inside = push_slot-inside;
      apart = push_slot-apart;
    }

module _ (name : String) (type : PrimaryType) (index : ℕ) (f : Frame) where
  -- A symbol at or above the base pointer leaves the slots below it as they are.
  place_slot-Slot :
      (n : String) (i : ℤ) (t : PrimaryType)
      → Slot (place_slot name type (pos index) f) n i t
      → Slot f n i t
  unfolding place_slot
  place_slot-Slot n i t s = elim (Bool-cases (str_eq name n)) [
    | inl e ↦
        (let same : i ≡ pos index =
            ground (arith, s.indexed, lookup-insert name n (pos index) f.symbol_index) in
          absurd (ground (arith, s.below)))
    | inr e ↦ record {
      typed = ground (arith, s.typed, lookup-insert name n type f.symbols);
      indexed = ground (arith, s.indexed, lookup-insert name n (pos index) f.symbol_index);
      below = s.below;
    }
  ]

  pub place_slot-IsLaidOut : IsLaidOut f → IsLaidOut (place_slot name type (pos index) f)
  unfolding place_slot
  place_slot-IsLaidOut l = record {
    downwards = l.downwards;
    inside = λ n i t s. l.inside n i t (place_slot-Slot n i t s);
    apart = λ n n' i i' t t' d s s'.
        l.apart n n' i i' t t' d (place_slot-Slot n i t s) (place_slot-Slot n' i' t' s');
  }

-- Every frame is laid out.
abbrev pub AreLaidOut : Frames → Type 0
AreLaidOut frames = (id : ℕ) → IsLaidOut (frames id)

pub write-AreLaidOut :
    (frames : Frames) (id : ℕ) (f : Frame)
    → AreLaidOut frames
    → IsLaidOut f
    → AreLaidOut (write id f frames)
write-AreLaidOut frames id f a l k = elim (Bool-cases (k == id)) [
  | inl e ↦ rw e l
  | inr e ↦ rw e (a k)
]

-- A symbol that is added gets a slot of its own: if in every frame the slots lie between the top of
-- the stack and the base pointer and do not overlap, they still do so after `addSymbol`.
pub add_symbol-AreLaidOut :
    (frames : Frames) (id : ℕ) (name : String) (type : PrimaryType) {index : ℤ} {frames' : Frames}
    → add_symbol frames id name type ≡ some (index, frames')
    → AreLaidOut frames
    → AreLaidOut frames'
unfolding add_symbol
add_symbol-AreLaidOut frames id name type {frames' = frames'} h a =
    elim (Bool-cases (has_symbol frames id name)) [
      | inl e ↦ (let same : frames ≡ frames' = ground arith in subst (λ x. AreLaidOut x) same a)
      | inr e ↦
          (let same : write id (push_slot name type (frames id)) frames ≡ frames' = ground arith in
            subst (λ x. AreLaidOut x) same
              (write-AreLaidOut frames id _ a (push_slot-IsLaidOut name type (frames id) (a id))))
    ]

pub add_symbol_at-AreLaidOut :
    (frames : Frames) (id : ℕ) (name : String) (type : PrimaryType) (index : ℕ)
    → AreLaidOut frames
    → AreLaidOut (add_symbol_at frames id name type (pos index)).1
unfolding add_symbol_at
add_symbol_at-AreLaidOut frames id name type index a =
    elim (Bool-cases (has_symbol frames id name)) [
      | inl e ↦ rw e a
      | inr e ↦
          rw e (
            write-AreLaidOut frames id _ a
              (place_slot-IsLaidOut name type index (frames id) (a id)))
    ]

pub add_elements-AreLaidOut :
    (frames : Frames) (id : ℕ) (name : String) (type : PrimaryType) (ip : ℕ) {frames' : Frames}
    → add_elements frames id name type ip ≡ some frames'
    → AreLaidOut frames
    → AreLaidOut frames'
unfolding add_elements
add_elements-AreLaidOut frames id name type zero h a =
    subst (λ x. AreLaidOut x) (some-injective _ _ h) a
add_elements-AreLaidOut frames id name type (suc ip) h a =
    elim (Option-cases (add_symbol frames id (element_name name (suc ip)) type)) [
      | inl e ↦ absurd (ground arith)
      | inr ((index, between), e) ↦
          add_elements-AreLaidOut between id name type ip (ground arith)
            (add_symbol-AreLaidOut frames id (element_name name (suc ip)) type e a)
    ]

-- So does an array, with all its elements.
pub add_array_symbol-AreLaidOut :
    (frames : Frames) (id : ℕ) (name : String) (type : PrimaryType) (length : ℕ) {index : ℤ}
    {frames' : Frames}
    → add_array_symbol frames id name type length ≡ some (index, frames')
    → AreLaidOut frames
    → AreLaidOut frames'
unfolding add_array_symbol
add_array_symbol-AreLaidOut frames id name type zero {index = index} h a = absurd (cc)
add_array_symbol-AreLaidOut frames id name type (suc last) {index = index} h a =
    elim (Option-cases (add_elements frames id name type last)) [
      | inl e ↦ absurd (ground arith)
      | inr (between, e) ↦
          add_symbol-AreLaidOut between id name type {index = index} (ground arith)
            (add_elements-AreLaidOut frames id name type last e a)
    ]
