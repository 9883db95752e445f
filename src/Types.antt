-- ===== src/Types.antt =====
-- src/ast/symboltable/PrimaryType.h: the primary types, a class for each in the source.
pub mod Laws
mod Tests
use caramel.Prelude.{ℕ, ◌+◌, String, Bool, true, false, ◌&&◌, ltb, leb, if◌then◌else◌}
use caramel.Prelude.Int.{ℤ, pos, negsuc, leb_ℤ}

pub data PrimaryType : Type 0 where
  void_t int8_t char int16_t int32_t int64_t : PrimaryType

-- The size in bits. `Char` inherits it from `Int8_t`.
unfoldable pub memory_length : PrimaryType → ℕ
memory_length void_t = 0
memory_length int8_t = 8
memory_length char = 8
memory_length int16_t = 16
memory_length int32_t = 32
memory_length int64_t = 64

unfoldable pub identifier : PrimaryType → String
identifier void_t = "void"
identifier int8_t = "int8_t"
identifier char = "char"
identifier int16_t = "int16_t"
identifier int32_t = "int32_t"
identifier int64_t = "int64_t"

unfoldable pub max_type : PrimaryType → PrimaryType → PrimaryType
unfolding memory_length
max_type a b = if ltb (memory_length b) (memory_length a) then a else b

-- `typeid(*this) == typeid(*other)`
unfoldable pub equals : PrimaryType → PrimaryType → Bool
equals void_t void_t = true
equals int8_t int8_t = true
equals char char = true
equals int16_t int16_t = true
equals int32_t int32_t = true
equals int64_t int64_t = true
equals _ _ = false

unfoldable pub greater_than : PrimaryType → PrimaryType → Bool
unfolding memory_length
greater_than a b = leb (memory_length b) (memory_length a)

-- The numeric limits of each width; `Char` inherits those of `Int8_t`.
unfoldable pub fits : PrimaryType → ℤ → Bool
fits void_t value = false
fits int8_t value = leb_ℤ (negsuc 127) value && leb_ℤ value (pos 127)
fits char value = leb_ℤ (negsuc 127) value && leb_ℤ value (pos 127)
fits int16_t value = leb_ℤ (negsuc 32767) value && leb_ℤ value (pos 32767)
fits int32_t value = leb_ℤ (negsuc 2147483647) value && leb_ℤ value (pos 2147483647)
fits int64_t value =
    leb_ℤ (negsuc 9223372036854775807) value && leb_ℤ value (pos 9223372036854775807)
