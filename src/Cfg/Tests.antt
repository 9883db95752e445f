-- ===== src/Cfg/Tests.antt =====
-- CFG.cpp: the frame of a small function.
use caramel.Prelude.{
  zero, arith, to_string, ℕ, suc, ◌*◌, ◌<◌, ◌≤◌, ◌==◌, ◌≡◌, ◌↔◌, refl, String, false, some, lookup,
  insert,
}
use caramel.Prelude.Int.{◌-ℤ◌, ℤ, pos, negsuc, ◌+ℤ◌, ◌≤ℤ◌}
use caramel.Types.{PrimaryType, int8_t, int32_t, memory_length}
use caramel.Cfg.{
  place_slot, Frames, no_frame, write, enter_function, push_slot, add_symbol, add_symbol_at,
  add_array_symbol, add_param_array_symbol, stack_at, has_symbol, get_symbol_index, get_stack_size,
  reserved, bytes, element_name,
}
use caramel.Cfg.Layout.{Slot, AreLaidOut}
use caramel.Cfg.Arrays.{add_array_symbol_contiguous}
use caramel.Cfg.Sizes.{
  Built, start, enter, symbol, above, param_array, Built-AreLaidOut, get_stack_size-covers,
  add_param_array_symbol-room,
}

-- Function 1 with a local int32_t x, and a seventh argument y above the base pointer.
abbrev entered : Frames
entered = enter_function (λ _. no_frame) 1

abbrev with_x : Frames
with_x = write 1 (push_slot "x" int32_t (entered 1)) entered

abbrev with_y : Frames
with_y = (add_symbol_at with_x 1 "y" int32_t (pos 16)).1

adds_x : add_symbol entered 1 "x" int32_t ≡ some (negsuc 3, with_x)
unfolding add_symbol enter_function has_symbol push_slot memory_length lookup ◌-ℤ◌
adds_x = refl

builds : Built with_y
builds = above 1 "y" int32_t 16 (symbol 1 "x" int32_t (negsuc 3) (enter 1 start refl) adds_x)

y_index : get_symbol_index with_y 1 "y" ≡ pos 16
unfolding add_symbol_at enter_function has_symbol push_slot lookup insert get_symbol_index
    place_slot
y_index = refl

top_of_y : (with_y 1).stack_size ≡ some (negsuc 3)
unfolding add_symbol_at enter_function has_symbol push_slot lookup insert memory_length place_slot
    ◌-ℤ◌
top_of_y = refl

-- And an array parameter z.
Built-AreLaidOut_example : AreLaidOut (add_param_array_symbol with_y 1 "z" int8_t).1
Built-AreLaidOut_example = Built-AreLaidOut (param_array 1 "z" int8_t builds)

get_stack_size-covers_example :
    (size : ℕ) × (get_stack_size with_y 1 ≡ reserved size)
    × ((name : String) (index : ℤ) (type : PrimaryType)
        → Slot (with_y 1) name index type
        → (pos 0 ≤ℤ index +ℤ pos size) × (index +ℤ pos (bytes type) ≤ℤ pos 0))
get_stack_size-covers_example = get_stack_size-covers with_y 1 (negsuc 3) builds top_of_y

z_is_free : has_symbol with_x 1 "z" ≡ false
unfolding has_symbol enter_function push_slot lookup insert
z_is_free = refl

add_param_array_symbol-room_example :
    ((add_param_array_symbol with_x 1 "z" int8_t).0 +ℤ pos 8 ≤ℤ stack_at (with_x 1))
    ↔ (32 ≤ memory_length int8_t)
add_param_array_symbol-room_example = add_param_array_symbol-room with_x 1 "z" int8_t z_is_free

elements_are_free : (j : ℕ) → j < 2 → has_symbol with_x 1 (element_name "z" (suc j)) ≡ false
unfolding has_symbol enter_function push_slot lookup insert element_name to_string
elements_are_free zero h = refl
elements_are_free (suc zero) h = refl
elements_are_free (suc (suc j)) h = absurd (omega arith)

sized_8 : (memory_length int8_t == 0) ≡ false
unfolding memory_length
sized_8 = refl

add_array_symbol_contiguous_example :
    (base : ℤ) × (frames' : Frames) × (add_array_symbol with_x 1 "z" int8_t 3
      ≡ some (base, frames'))
    × (base +ℤ pos (3 * bytes int8_t) ≡ stack_at (with_x 1))
    × (stack_at (frames' 1) ≡ base)
    × (get_symbol_index frames' 1 "z" ≡ base)
    × ((i : ℕ)
        → i < 2
        → get_symbol_index frames' 1 (element_name "z" (suc i))
          ≡ base +ℤ pos (suc i * bytes int8_t))
add_array_symbol_contiguous_example =
    add_array_symbol_contiguous 1 refl int8_t sized_8 with_x "z" 2 z_is_free elements_are_free
