-- ===== src/Cfg/ParamArrays.antt =====
-- CFG.cpp, `addParamArraySymbol`: the slot of an array parameter, below those that were there.
use caramel.Prelude.{
  sym, ◌∙◌, ℕ, ◌≡◌, ◌≢◌, ◌⊎◌, inl, inr, String, str_eq, eq_iff, true, some, insert, lookup-insert,
  arith, Bool-cases,
}
use caramel.Prelude.Int.{ℤ, pos, ◌+ℤ◌, ◌-ℤ◌, ◌≤ℤ◌, ◌<ℤ◌, int_laws}
use caramel.Types.{PrimaryType}
use caramel.Cfg.{
  Frame, Frames, write, stack_at, has_symbol, bytes, place_slot, add_symbol_at,
  add_param_array_symbol,
}
use caramel.Cfg.Layout.{Slot, IsLaidOut, AreLaidOut, write-AreLaidOut}

module _ (name : String) (type : PrimaryType) (index : ℤ) (f : Frame)
    (low : index +ℤ pos (bytes type) ≤ℤ stack_at f) (below : index <ℤ pos 0) where
  place_slot-Slot :
      (n : String) (i : ℤ) (t : PrimaryType)
      → Slot (place_slot name type index f) n i t
      → ((name ≡ n) × (i ≡ index) × (t ≡ type)) ⊎ ((name ≢ n) × Slot f n i t)
  unfolding place_slot
  place_slot-Slot n i t s = elim (Bool-cases (str_eq name n)) [
    | inl e ↦ inl (
      (eq_iff name n).0 e,
      ground (arith, s.indexed, lookup-insert name n index f.symbol_index),
      ground (arith, s.typed, lookup-insert name n type f.symbols),
    )
    | inr e ↦ inr (
      (λ h. cc ((eq_iff name n).1 h, e)),
      record {
        typed = ground (arith, s.typed, lookup-insert name n type f.symbols);
        indexed = ground (arith, s.indexed, lookup-insert name n index f.symbol_index);
        below = s.below;
      },
    )
  ]

  -- The new symbol is the new top of the stack.
  stack_at-place_slot : stack_at (place_slot name type index f) ≡ index
  unfolding place_slot
  stack_at-place_slot = ground (arith, below)

  new_slot :
      (i : ℤ) (t : PrimaryType)
      → i ≡ index
      → t ≡ type
      → (index ≤ℤ i) × (i +ℤ pos (bytes t) ≤ℤ stack_at f)
  new_slot i t ei et = rw (ei, et) (omega arith, low)

  module _ (l : IsLaidOut f) where
    place_slot-inside :
        (n : String) (i : ℤ) (t : PrimaryType)
        → Slot (place_slot name type index f) n i t
        → (index ≤ℤ i) × (i +ℤ pos (bytes t) ≤ℤ pos 0)
    place_slot-inside n i t s = elim (place_slot-Slot n i t s) [
      | inl (e, ei, et) ↦ (let (a, b) = new_slot i t ei et in (a, omega (int_laws, b, l.downwards)))
      | inr (e, old) ↦ (let (a, b) = l.inside n i t old in (omega (int_laws, a, low), b))
    ]

    place_slot-apart :
        (n n' : String) (i i' : ℤ) (t t' : PrimaryType)
        → n ≢ n'
        → Slot (place_slot name type index f) n i t
        → Slot (place_slot name type index f) n' i' t'
        → (i +ℤ pos (bytes t) ≤ℤ i') ⊎ (i' +ℤ pos (bytes t') ≤ℤ i)
    place_slot-apart n n' i i' t t' d s s' = elim (place_slot-Slot n i t s) [
      | inl (e, ei, et) ↦ elim (place_slot-Slot n' i' t' s') [
        | inl (e', _, _) ↦ absurd (d (sym e ∙ e'))
        | inr (_, old) ↦
            (let b = (new_slot i t ei et).1 in
              let a = (l.inside n' i' t' old).0 in inl (omega (int_laws, a, b)))
      ]
      | inr (_, old) ↦ elim (place_slot-Slot n' i' t' s') [
        | inl (e', ei, et) ↦
            (let b = (new_slot i' t' ei et).1 in
              let a = (l.inside n i t old).0 in inr (omega (int_laws, a, b)))
        | inr (_, old') ↦ l.apart n n' i i' t t' d old old'
      ]
    ]

    place_slot-IsLaidOut : IsLaidOut (place_slot name type index f)
    place_slot-IsLaidOut = record {
      downwards = rw stack_at-place_slot (omega (arith, below));
      inside = λ n i t s. rw stack_at-place_slot (place_slot-inside n i t s);
      apart = place_slot-apart;
    }

-- The flag of an array parameter, and the size of the stack, which is read.
marked-IsLaidOut :
    (name : String) (f : Frame)
    → IsLaidOut f
    → IsLaidOut (record f {
      is_param_array = insert name true f.is_param_array;
      stack_size = some (stack_at f);
    })
marked-IsLaidOut name f l = record {
  downwards = l.downwards;
  inside =
      λ n i t s. l.inside n i t (record { typed = s.typed; indexed = s.indexed; below = s.below });
  apart = λ n n' i i' t t' d s s'.
      l.apart n n' i i' t t' d (record { typed = s.typed; indexed = s.indexed; below = s.below })
        (record { typed = s'.typed; indexed = s'.indexed; below = s'.below });
}

add_symbol_at-below :
    (frames : Frames) (id : ℕ) (name : String) (type : PrimaryType) (index : ℤ)
    → index +ℤ pos (bytes type) ≤ℤ stack_at (frames id)
    → index <ℤ pos 0
    → AreLaidOut frames
    → AreLaidOut (add_symbol_at frames id name type index).1
unfolding add_symbol_at
add_symbol_at-below frames id name type index low below a =
    elim (Bool-cases (has_symbol frames id name)) [
      | inl e ↦ rw e a
      | inr e ↦ rw e (
          write-AreLaidOut frames id _ a
            (place_slot-IsLaidOut name type index (frames id) low below (a id)))
    ]

slot_low :
    (s : ℤ) (m : ℕ)
    → s ≤ℤ pos 0
    → (s -ℤ pos m -ℤ pos 4 +ℤ pos m ≤ℤ s) × (s -ℤ pos m -ℤ pos 4 <ℤ pos 0)
slot_low s m h = (omega int_laws, omega int_laws)

-- An array parameter gets a slot of its own as well.
pub add_param_array_symbol-AreLaidOut :
    (frames : Frames) (id : ℕ) (name : String) (type : PrimaryType)
    → AreLaidOut frames
    → AreLaidOut (add_param_array_symbol frames id name type).1
unfolding add_param_array_symbol
add_param_array_symbol-AreLaidOut frames id name type a =
    let f : Frame = record (frames id) {
      is_param_array = insert name true (frames id).is_param_array;
      stack_size = some (stack_at (frames id));
    } in
    let same : stack_at (write id f frames id) ≡ stack_at (frames id) = ground arith in
    let (low, below) = slot_low (stack_at (frames id)) (bytes type) (a id).downwards in
    add_symbol_at-below (write id f frames) id name type
      (stack_at (frames id) -ℤ pos (bytes type) -ℤ pos 4) (rw same low) below
      (write-AreLaidOut frames id f a (marked-IsLaidOut name (frames id) (a id)))
