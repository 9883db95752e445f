-- ===== src/Cfg/Arrays.antt =====
-- CFG.cpp, `addArraySymbol`: the elements of a local array are consecutive in memory.
use Prim.Native.String.{◌++◌, count}
use text.Mathlib.TextLemmas.{length-append, length-cons, append_cancel_left, append_cancel_right}
use caramel.Prelude.{
  ℕ, zero, suc, ◌*◌, ◌<◌, ◌==◌, ◌≡◌, ◌≢◌, ◌∙◌, sym, ap, inl, inr, refl, String, str_eq, eq_iff,
  eq_refl, true, false, some, lookup-insert, arith, if◌then◌else◌, Bool-cases, to_string,
  to_string-injective,
}
use caramel.Prelude.Int.{ℤ, pos, ◌+ℤ◌, ◌-ℤ◌, int_laws}
use native.Mathlib.Decide.{dec_lt}
use caramel.Types.{PrimaryType, memory_length}
use caramel.Cfg.{
  Frames, write, stack_at, has_symbol, get_symbol_index, bytes, push_slot, add_symbol, element_name,
  add_elements, add_array_symbol,
}

element_name-injective :
    (name : String) (m n : ℕ) → element_name name m ≡ element_name name n → m ≡ n
unfolding element_name
element_name-injective name m n e = to_string-injective m n (
    append_cancel_right (to_string m) (to_string n) "]"
      (append_cancel_left "[" _ _ (append_cancel_left name _ _ e)))

-- An element has another name than its array.
element_name-ne : (name : String) (n : ℕ) → element_name name n ≢ name
unfolding element_name
element_name-ne name n e =
    let longer = length-append name ("[" ++ (to_string n ++ "]")) in
    let shut = length-append "[" (to_string n ++ "]") in
    let whole = ap count e in absurd (omega (arith, longer, shut, whole, length-cons "[" ""))

differ : (n m : String) → n ≢ m → str_eq n m ≡ false
differ n m d = elim (Bool-cases (str_eq n m)) [ inl e ↦ absurd (d ((eq_iff n m).0 e)) | inr e ↦ e ]

-- One more slot of b bytes on the way down, and the offset of the slot that was first.
step_down :
    (a c s : ℤ) (ip b : ℕ)
    → a +ℤ pos (ip * b) ≡ c
    → c ≡ s -ℤ pos b
    → (a +ℤ pos (suc ip * b) ≡ s) × (s -ℤ pos b ≡ a +ℤ pos (ip * b))
step_down a c s ip b h k = (rw (sym (back s c b k)) (regroup a c ip b h), sym (h ∙ k))
  where
    back : (s c : ℤ) (b : ℕ) → c ≡ s -ℤ pos b → c +ℤ pos b ≡ s
    back s c b k = rw k (omega int_laws)

    regroup : (a c : ℤ) (ip b : ℕ) → a +ℤ pos (ip * b) ≡ c → a +ℤ pos (suc ip * b) ≡ c +ℤ pos b
    regroup a c ip b h = rw (← h) (omega int_laws)

last_slot : (s t : ℤ) (n b : ℕ) → s +ℤ pos (n * b) ≡ t → s -ℤ pos b +ℤ pos (suc n * b) ≡ t
last_slot s t n b h = rw (← h) (omega int_laws)

next_slot : (s : ℤ) (n b : ℕ) → s +ℤ pos (n * b) ≡ s -ℤ pos b +ℤ pos (suc n * b)
next_slot s n b = omega int_laws

module _ (id : ℕ) (real : (id == 0) ≡ false) (type : PrimaryType)
    (sized : (memory_length type == 0) ≡ false) where
  module _ (frames : Frames) (n : String) where
    pushed : Frames
    pushed = write id (push_slot n type (frames id)) frames

    add_symbol-pushed :
        has_symbol frames id n ≡ false
        → add_symbol frames id n type ≡ some (stack_at (frames id) -ℤ pos (bytes type), pushed)
    unfolding add_symbol pushed
    add_symbol-pushed free = ground arith

    has_symbol-pushed :
        (m : String)
        → has_symbol pushed id m ≡ (if str_eq n m then true else has_symbol frames id m)
    unfolding has_symbol pushed push_slot
    has_symbol-pushed m = ground (arith, lookup-insert n m type (frames id).symbols)

    get_symbol_index-pushed :
        (m : String)
        → get_symbol_index pushed id m ≡ (
            if str_eq n m
            then stack_at (frames id) -ℤ pos (bytes type)
            else get_symbol_index frames id m)
    unfolding get_symbol_index pushed push_slot
    get_symbol_index-pushed m = ground (
      arith,
      lookup-insert n m (stack_at (frames id) -ℤ pos (bytes type)) (frames id).symbol_index,
    )

    stack_at-pushed : stack_at (pushed id) ≡ stack_at (frames id) -ℤ pos (bytes type)
    unfolding pushed push_slot
    stack_at-pushed = ground arith

    pushed_first : get_symbol_index pushed id n ≡ stack_at (frames id) -ℤ pos (bytes type)
    pushed_first = get_symbol_index-pushed n ∙ rw (eq_refl n)

    pushed_others :
        (m : String)
        → n ≢ m
        → (has_symbol pushed id m ≡ has_symbol frames id m)
          × (get_symbol_index pushed id m ≡ get_symbol_index frames id m)
    pushed_others m d =
        (has_symbol-pushed m ∙ rw (differ n m d), get_symbol_index-pushed m ∙ rw (differ n m d))

  -- What adding the elements from `ip` down to 1 does to frames where their names are free.
  record Elements (frames : Frames) (name : String) (ip : ℕ) : Type 0 where
    frames' : Frames
    ran : add_elements frames id name type ip ≡ some frames'
    top : stack_at (frames' id) +ℤ pos (ip * bytes type) ≡ stack_at (frames id)
    placed :
        (j : ℕ)
        → j < ip
        → get_symbol_index frames' id (element_name name (suc j))
          ≡ stack_at (frames' id) +ℤ pos (j * bytes type)
    others :
        (m : String)
        → ((j : ℕ) → j < ip → element_name name (suc j) ≢ m)
        → (has_symbol frames' id m ≡ has_symbol frames id m)
          × (get_symbol_index frames' id m ≡ get_symbol_index frames id m)

  elements :
      (frames : Frames) (name : String) (ip : ℕ)
      → ((j : ℕ) → j < ip → has_symbol frames id (element_name name (suc j)) ≡ false)
      → Elements frames name ip
  unfolding add_elements
  elements frames name zero free = record {
    frames' = frames;
    ran = refl;
    top = omega int_laws;
    placed = λ j h. absurd (omega arith);
    others = λ m d. (refl, refl);
  }
  elements frames name (suc ip) free =
      let first = element_name name (suc ip) in
      let between = pushed frames first in
      let apart : (j : ℕ) → j < ip → first ≢ element_name name (suc j) =
        λ j h e. absurd (omega (arith, element_name-injective name (suc ip) (suc j) e, h)) in
      let rest : Elements between name ip =
        elements between name ip
          (λ j h. (pushed_others frames first _ (apart j h)).0 ∙ free j (omega arith)) in
      let down =
        step_down (stack_at (rest.frames' id)) _ _ ip (bytes type) rest.top
          (stack_at-pushed frames first) in
      record {
        frames' = rest.frames';
        ran = rw (add_symbol-pushed frames first (free ip (omega arith))) rest.ran;
        top = down.0;
        placed = λ j h. elim (dec_lt j ip) [
          | yes lt ↦ rest.placed j lt
          | no ge ↦
              (let same : j ≡ ip = omega arith in
                rw same (
                  (rest.others first (λ k lt e. apart k lt (sym e))).1
                  ∙ (pushed_first frames first ∙ down.1)))
        ];
        others = λ m d.
            (let (h, x) = rest.others m (λ j lt. d j (omega arith)) in
              let (h', x') = pushed_others frames first m (d ip (omega arith)) in (h ∙ h', x ∙ x'));
      }

  -- A local array of one element or more, of a type with a size, in a function with a number other
  -- than 0, whose name and elements' names are free: it is added; the slot of its name, which is that
  -- of the first element, is as many element sizes as it has elements below the old top of the stack,
  -- and is the new top; the i-th element lies i element sizes above it.
  pub add_array_symbol_contiguous :
      (frames : Frames) (name : String) (last : ℕ)
      → has_symbol frames id name ≡ false
      → ((j : ℕ) → j < last → has_symbol frames id (element_name name (suc j)) ≡ false)
      → (base : ℤ) × (frames' : Frames) × (add_array_symbol frames id name type (suc last)
          ≡ some (base, frames'))
        × (base +ℤ pos (suc last * bytes type) ≡ stack_at (frames id))
        × (stack_at (frames' id) ≡ base)
        × (get_symbol_index frames' id name ≡ base)
        × ((i : ℕ)
            → i < last
            → get_symbol_index frames' id (element_name name (suc i))
              ≡ base +ℤ pos (suc i * bytes type))
  unfolding add_array_symbol
  add_array_symbol_contiguous frames name last named free =
      let rest : Elements frames name last = elements frames name last free in
      let between = rest.frames' in
      let (h, x) = rest.others name (λ j lt. element_name-ne name (suc j)) in
      let base = stack_at (between id) -ℤ pos (bytes type) in
      (
        base,
        pushed between name,
        rw rest.ran (add_symbol-pushed between name (h ∙ named)),
        last_slot (stack_at (between id)) _ last (bytes type) rest.top,
        stack_at-pushed between name,
        pushed_first between name,
        λ i lt.
            (pushed_others between name _ (λ e. element_name-ne name (suc i) (sym e))).1
            ∙ (rest.placed i lt ∙ next_slot (stack_at (between id)) i (bytes type)),
      )
