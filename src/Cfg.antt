-- ===== src/Cfg.antt =====
-- src/ir/CFG.cpp, CFG.h: where the back-end keeps the symbols of each function and the offsets of
-- their slots from the base pointer. The maps keyed by a function's number are one function from
-- numbers to frames; a `long` is an integer, since a frame is far smaller than 2^63 bytes. Reading
-- a missing entry by `operator[]` also inserts the default that it returns, which no later read
-- tells from the missing entry, but for `mStackSize`, whose insertions are kept.
pub mod Layout
pub mod Arrays
pub mod ParamArrays
pub mod Sizes
mod Tests
use Prim.Native.String.{◌++◌}
use caramel.Prelude.{
  zero, to_string, ℕ, suc, ◌+◌, ◌*◌, ◌-◌, ◌/◌, ◌==◌, String, Bool, true, false, ◌||◌, Option, none,
  some, List, [], ◌∷◌, lookup, insert, is_some, if◌then◌else◌, ltb,
}
use caramel.Prelude.Int.{ℤ, pos, ◌+ℤ◌, ◌-ℤ◌, neg_part}
use caramel.Types.{PrimaryType, memory_length}

-- The entries of one function in `mSymbols`, `mSymbolIndex`, `mSymbolIsParamArray`, `mStackSize`
-- and `mTopStackMemberSize`; `none` is a missing entry of the last two.
pub record Frame : Type 0 where
  pub symbols : List (String × PrimaryType)
  pub symbol_index : List (String × ℤ)
  pub is_param_array : List (String × Bool)
  pub stack_size : Option ℤ
  pub top_stack_member_size : Option ℕ

abbrev pub no_frame : Frame
no_frame = record {
  symbols = [];
  symbol_index = [];
  is_param_array = [];
  stack_size = none;
  top_stack_member_size = none;
}

abbrev pub Frames : Type 0
Frames = ℕ → Frame

infixl 5 ◌>>=◌
abbrev pub ◌>>=◌ : {A B : Type 0} → Option A → (A → Option B) → Option B
some a >>= f = f a
none >>= f = none

abbrev pub write : ℕ → Frame → Frames → Frames
write id f frames k = if k == id then f else frames k

-- `none` is a fatal message and `exit(1)`.
abbrev pub Outcome : Type 0
Outcome = Option (ℤ × Frames)

-- `mStackSize[id]`, where a missing entry reads 0.
abbrev pub stack_of : Option ℤ → ℤ
stack_of none = pos 0
stack_of (some size) = size

abbrev pub stack_at : Frame → ℤ
stack_at f = stack_of f.stack_size

unfoldable pub has_symbol : Frames → ℕ → String → Bool
has_symbol frames id name =
    is_some (lookup name (frames id).symbols) || is_some (lookup name (frames 0).symbols)

abbrev flag_of : Option Bool → Bool
flag_of none = false
flag_of (some flag) = flag

-- `none` where the symbol is not registered.
unfoldable pub is_symbol_param_array : Frames → ℕ → String → Option Bool
unfolding has_symbol
is_symbol_param_array frames id name =
    if has_symbol frames id name
    then some (flag_of (lookup name (frames id).is_param_array))
    else none

abbrev index_or : Option ℤ → ℤ → ℤ
index_or none other = other
index_or (some index) other = index

unfoldable pub get_symbol_index : Frames → ℕ → String → ℤ
get_symbol_index frames id name =
    index_or (lookup name (frames id).symbol_index)
      (index_or (lookup name (frames 0).symbol_index) (pos 0))

-- The bytes of a type.
abbrev pub bytes : PrimaryType → ℕ
bytes type = memory_length type / 8

-- `mSymbolIsParamArray[id]` with a false entry where there was none.
abbrev pub with_flag : String → Frame → List (String × Bool)
with_flag name f =
    if is_some (lookup name f.is_param_array)
    then f.is_param_array
    else insert name false f.is_param_array

-- The frame with a new symbol below the others.
unfoldable pub push_slot : String → PrimaryType → Frame → Frame
push_slot name type f =
    let top = stack_at f -ℤ pos (bytes type) in
    record {
      symbols = insert name type f.symbols;
      symbol_index = insert name top f.symbol_index;
      is_param_array = with_flag name f;
      stack_size = some top;
      top_stack_member_size = some (memory_length type);
    }

-- `addSymbol(controlBlockId, symbolName, type)`
unfoldable pub add_symbol : Frames → ℕ → String → PrimaryType → Outcome
unfolding has_symbol get_symbol_index
add_symbol frames id name type =
    if has_symbol frames id name
    then some (get_symbol_index frames id name, frames)
    else if memory_length type == 0
    then none
    else some (
      stack_at (frames id) -ℤ pos (bytes type),
      write id (push_slot name type (frames id)) frames,
    )

-- The frame with a symbol at a given offset; a negative one is the new top of the stack.
unfoldable pub place_slot : String → PrimaryType → ℤ → Frame → Frame
place_slot name type index f = record {
  symbols = insert name type f.symbols;
  symbol_index = insert name index f.symbol_index;
  is_param_array = with_flag name f;
  stack_size = if ltb 0 (neg_part index) then some index else f.stack_size;
  top_stack_member_size = some (memory_length type);
}

-- `addSymbol(controlBlockId, symbolName, type, index)`
unfoldable pub add_symbol_at : Frames → ℕ → String → PrimaryType → ℤ → ℤ × Frames
unfolding has_symbol get_symbol_index
add_symbol_at frames id name type index =
    if has_symbol frames id name
    then (get_symbol_index frames id name, frames)
    else (index, write id (place_slot name type index (frames id)) frames)

-- The flag is set, and `mStackSize[id]` read, before the symbol is added.
unfoldable pub add_param_array_symbol : Frames → ℕ → String → PrimaryType → ℤ × Frames
add_param_array_symbol frames id name type =
    let f = frames id in
    let marked =
      write id
        (record f {
          is_param_array = insert name true f.is_param_array;
          stack_size = some (stack_at f);
        })
        frames in
    add_symbol_at marked id name type (stack_at f -ℤ pos (bytes type) -ℤ pos 4)

-- symbolName + '[' + std::to_string(ip) + ']'
unfoldable pub element_name : String → ℕ → String
element_name name ip = name ++ ("[" ++ (to_string ip ++ "]"))

-- The loop of `addArraySymbol`, which adds the elements from `ip` down to 1.
unfoldable pub add_elements : Frames → ℕ → String → PrimaryType → ℕ → Option Frames
unfolding element_name
add_elements frames id name type zero = some frames
add_elements frames id name type (suc ip) =
    add_symbol frames id (element_name name (suc ip)) type >>= λ (_, frames').
    add_elements frames' id name type ip

-- `addArraySymbol`: the elements from the last to the second, then the array's own name, which is
-- the slot of the first element.
unfoldable pub add_array_symbol : Frames → ℕ → String → PrimaryType → ℕ → Outcome
unfolding add_elements
add_array_symbol frames id name type zero = none
add_array_symbol frames id name type (suc last) =
    add_elements frames id name type last >>= λ frames'. add_symbol frames' id name type

unfoldable pub enter_function : Frames → ℕ → Frames
enter_function frames id = write id (record (frames id) { stack_size = some (pos 0) }) frames

-- `missing` is the exception of `mStackSize.at`, `negative` a fatal message and `exit(0)`.
pub data StackSize : Type 0 where
  reserved : ℕ → StackSize
  missing negative : StackSize

abbrev member_of : Option ℕ → ℕ
member_of none = 0
member_of (some size) = size

to_size : ℤ → StackSize
to_size (pos size) = reserved size
to_size _ = negative

size_from : Option ℤ → ℕ → StackSize
unfolding to_size
size_from none top = missing
size_from (some size) top = to_size (pos (top / 8) -ℤ size)

unfoldable pub get_stack_size : Frames → ℕ → StackSize
unfolding size_from
get_stack_size frames id =
    size_from (frames id).stack_size (member_of (frames id).top_stack_member_size)
