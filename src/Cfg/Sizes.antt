-- ===== src/Cfg/Sizes.antt =====
-- CFG.cpp: the frames that a run builds, and the size that the prologue of a function reserves.
use caramel.Prelude.{
  ◌%◌, ap, ℕ, zero, suc, ◌+◌, ◌/◌, ◌≤◌, ◌==◌, ◌≡◌, ◌↔◌, inl, inr, refl, String, false, some, lookup,
  arith, Bool-cases, [],
}
use caramel.Prelude.Int.{ℤ, pos, negsuc, ◌+ℤ◌, ◌-ℤ◌, ◌≤ℤ◌, int_laws, neg_part}
use caramel.Types.{PrimaryType, memory_length}
use caramel.Cfg.{
  member_of, size_from, Frame, Frames, no_frame, stack_at, stack_of, bytes, has_symbol, add_symbol,
  add_symbol_at, add_array_symbol, add_param_array_symbol, enter_function, reserved, get_stack_size,
}
use caramel.Cfg.ParamArrays.{add_param_array_symbol-AreLaidOut}
use caramel.Cfg.Layout.{
  Slot, IsLaidOut, AreLaidOut, add_symbol-AreLaidOut, add_symbol_at-AreLaidOut,
  add_array_symbol-AreLaidOut,
}

-- The frames that a sequence of the operations builds. A function is entered under a number whose frame
-- has no symbols yet; a symbol that is placed at a given offset lies above the base pointer, unless it is
-- the pointer of an array parameter.
pub data Built : Frames → Type 0 where
  start : Built (λ _. no_frame)
  enter :
      {frames : Frames} (id : ℕ)
      → Built frames
      → (frames id).symbols ≡ []
      → Built (enter_function frames id)
  symbol :
      {frames frames' : Frames} (id : ℕ) (name : String) (type : PrimaryType) (index : ℤ)
      → Built frames
      → add_symbol frames id name type ≡ some (index, frames')
      → Built frames'
  array :
      {frames frames' : Frames} (id : ℕ) (name : String) (type : PrimaryType) (length : ℕ)
      (index : ℤ)
      → Built frames
      → add_array_symbol frames id name type length ≡ some (index, frames')
      → Built frames'
  above :
      {frames : Frames} (id : ℕ) (name : String) (type : PrimaryType) (index : ℕ)
      → Built frames
      → Built (add_symbol_at frames id name type (pos index)).1
  param_array :
      {frames : Frames} (id : ℕ) (name : String) (type : PrimaryType)
      → Built frames
      → Built (add_param_array_symbol frames id name type).1

empty-IsLaidOut : (f : Frame) → f.symbols ≡ [] → stack_at f ≡ pos 0 → IsLaidOut f
unfolding lookup
empty-IsLaidOut f none_yet at_zero = record {
  downwards = rw at_zero (omega arith);
  inside = λ n i t s. absurd (ground (arith, s.typed));
  apart = λ n n' i i' t t' d s s'. absurd (ground (arith, s.typed));
}

-- In the frames that any sequence of `addSymbol`, with an offset and without, `addArraySymbol`,
-- `addParamArraySymbol` and `enterFunction` builds, each function entered while its frame has no symbols
-- and no offset negative, the slots below the base pointer lie inside their frame, and no two of one frame
-- overlap. A slot has as many bytes as the type of its symbol.
pub Built-AreLaidOut : {frames : Frames} → Built frames → AreLaidOut frames
unfolding enter_function
Built-AreLaidOut start = λ k. empty-IsLaidOut no_frame refl refl
Built-AreLaidOut (enter {frames = frames} id b h) = λ k. elim (Bool-cases (k == id)) [
  | inl e ↦ rw e (empty-IsLaidOut _ h refl)
  | inr e ↦ rw e (Built-AreLaidOut b k)
]
Built-AreLaidOut (symbol {frames = frames} id name type index b h) =
    add_symbol-AreLaidOut frames id name type {index = index} h (Built-AreLaidOut b)
Built-AreLaidOut (array {frames = frames} id name type length index b h) =
    add_array_symbol-AreLaidOut frames id name type length {index = index} h (Built-AreLaidOut b)
Built-AreLaidOut (above {frames = frames} id name type index b) =
    add_symbol_at-AreLaidOut frames id name type index (Built-AreLaidOut b)
Built-AreLaidOut (param_array {frames = frames} id name type b) =
    add_param_array_symbol-AreLaidOut frames id name type (Built-AreLaidOut b)

room : (index top : ℤ) (m : ℕ) → top ≤ℤ index → pos 0 ≤ℤ index +ℤ pos (m + neg_part top)
room index top m h = omega int_laws

-- The size of a frame whose top is at or below the base pointer.
size_from-reserved :
    (top : ℤ) (member : ℕ)
    → top ≤ℤ pos 0
    → size_from (some top) member ≡ reserved (member / 8 + neg_part top)
unfolding size_from ◌-ℤ◌
size_from-reserved (pos zero) member h = ground arith
size_from-reserved (pos (suc n)) member h = absurd (omega arith)
size_from-reserved (negsuc n) member h = ground arith

-- In the frames that any sequence of `addSymbol`, with an offset and without, `addArraySymbol`,
-- `addParamArraySymbol` and `enterFunction` builds, each function entered while its frame has no symbols
-- and no offset negative, `getStackSize` of a function whose stack size is recorded returns a size, and
-- every slot below the base pointer lies within that many bytes of it.
pub get_stack_size-covers :
    (frames : Frames) (id : ℕ) (top : ℤ)
    → Built frames
    → (frames id).stack_size ≡ some top
    → (size : ℕ) × (get_stack_size frames id ≡ reserved size)
      × ((name : String) (index : ℤ) (type : PrimaryType)
          → Slot (frames id) name index type
          → (pos 0 ≤ℤ index +ℤ pos size) × (index +ℤ pos (bytes type) ≤ℤ pos 0))
unfolding get_stack_size
get_stack_size-covers frames id top b h =
    let laid = Built-AreLaidOut b id in
    let member = member_of (frames id).top_stack_member_size in
    let at_top : stack_at (frames id) ≡ top = ap stack_of h in
    let low : top ≤ℤ pos 0 = rw at_top at laid.downwards in
    (
      member / 8 + neg_part top,
      rw h (size_from-reserved top member low),
      λ name index type s.
          (let (a, below) = laid.inside name index type s in
            let a' : top ≤ℤ index = rw at_top at a in (room index top (member / 8) a', below)),
    )

add_param_array_symbol-index :
    (frames : Frames) (id : ℕ) (name : String) (type : PrimaryType)
    → has_symbol frames id name ≡ false
    → (add_param_array_symbol frames id name type).0
      ≡ stack_at (frames id) -ℤ pos (bytes type) -ℤ pos 4
unfolding add_param_array_symbol add_symbol_at has_symbol
add_param_array_symbol-index frames id name type free = ground arith

whole_bytes : (type : PrimaryType) → memory_length type % 8 ≡ 0
unfolding memory_length
whole_bytes type = ground arith

pointer_room : (m : ℕ) (s : ℤ) → m % 8 ≡ 0 → (s -ℤ pos (m / 8) -ℤ pos 4 +ℤ pos 8 ≤ℤ s) ↔ (32 ≤ m)
pointer_room m s h = (λ p. omega int_laws, λ p. omega int_laws)

-- The offset that `addParamArraySymbol` gives to a name that is free: eight bytes from it on, the size
-- of a pointer, end at or below the old top of the stack exactly when the elements have 32 bits or
-- more.
pub add_param_array_symbol-room :
    (frames : Frames) (id : ℕ) (name : String) (type : PrimaryType)
    → has_symbol frames id name ≡ false
    → ((add_param_array_symbol frames id name type).0 +ℤ pos 8 ≤ℤ stack_at (frames id))
      ↔ (32 ≤ memory_length type)
unfolding add_param_array_symbol add_symbol_at
add_param_array_symbol-room frames id name type free =
    rw (add_param_array_symbol-index frames id name type free)
      (pointer_room (memory_length type) (stack_at (frames id)) (whole_bytes type))
