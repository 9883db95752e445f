-- ===== src/Types/Tests.antt =====
-- PrimaryType.h: tests of the types.
use caramel.Prelude.{◌≡◌, ◌↔◌, ◌<◌, ◌-◌, ◌^◌, refl, true}
use caramel.Prelude.Int.{ℤ, pos, negsuc, ◌≤ℤ◌, ◌<ℤ◌}
use caramel.Types.{int32_t, int8_t, memory_length, max_type, fits, greater_than}
use caramel.Types.Laws.{greater_than_iff}

max_type_test : max_type int8_t int32_t ≡ int32_t
unfolding max_type
max_type_test = refl

greater_than_iff_example :
    ((value : ℤ)
      → (fits int32_t value ≡ true) ↔ (
          (0 < memory_length int32_t)
          × (negsuc (2 ^ (memory_length int32_t - 1) - 1) ≤ℤ value)
          × (value <ℤ pos (2 ^ (memory_length int32_t - 1)))))
    × ((greater_than int32_t int8_t ≡ true)
        ↔ ((value : ℤ) → fits int8_t value ≡ true → fits int32_t value ≡ true))
greater_than_iff_example = greater_than_iff int32_t int8_t
