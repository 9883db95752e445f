-- ===== src/Types/Laws.antt =====
-- src/ast/symboltable/PrimaryType.h: how the comparisons of types agree with one another.
use caramel.Prelude.{◌<◌, ◌-◌, ◌^◌, ◌≡◌, refl, ◌↔◌, true, arith, str_eq}
use caramel.Prelude.Int.{ℤ, pos, negsuc, ◌≤ℤ◌, ◌<ℤ◌}
use caramel.Types.{
  PrimaryType, void_t, int8_t, char, int16_t, int32_t, int64_t, identifier, memory_length, max_type,
  equals, greater_than, fits,
}

pub equals_iff : (a b : PrimaryType) → (equals a b ≡ true) ↔ (a ≡ b)
unfolding equals
equals_iff a b = ground arith

-- For types a and b, `equals` holds exactly when their identifiers are the same text.
pub equals-identifier : (a b : PrimaryType) → str_eq (identifier a) (identifier b) ≡ equals a b
unfolding identifier equals
equals-identifier void_t void_t = refl
equals-identifier int8_t int8_t = refl
equals-identifier char char = refl
equals-identifier int16_t int16_t = refl
equals-identifier int32_t int32_t = refl
equals-identifier int64_t int64_t = refl
equals-identifier _ _ = refl

-- The larger of two types is at least as wide as both.
pub greater_than-max_type :
    (a b : PrimaryType)
    → (greater_than (max_type a b) a ≡ true) × (greater_than (max_type a b) b ≡ true)
unfolding greater_than max_type
greater_than-max_type a b = ground arith

-- The values that fit a type are those of its width in two's complement.
fits_range :
    (a : PrimaryType) (value : ℤ)
    → (fits a value ≡ true) ↔ (
        (0 < memory_length a)
        × (negsuc (2 ^ (memory_length a - 1) - 1) ≤ℤ value)
        × (value <ℤ pos (2 ^ (memory_length a - 1))))
unfolding fits memory_length
fits_range void_t value = (λ h. absurd (cc (h)), λ (p, _, _). absurd (omega arith))
fits_range int8_t (pos n) = ground arith
fits_range int8_t (negsuc n) = ground arith
fits_range char (pos n) = ground arith
fits_range char (negsuc n) = ground arith
fits_range int16_t (pos n) = ground arith
fits_range int16_t (negsuc n) = ground arith
fits_range int32_t (pos n) = ground arith
fits_range int32_t (negsuc n) = ground arith
fits_range int64_t (pos n) = ground arith
fits_range int64_t (negsuc n) = ground arith

-- A value that fits a type fits every type that is at least as wide.
fits_mono :
    (a b : PrimaryType) (value : ℤ)
    → greater_than a b ≡ true
    → fits b value ≡ true
    → fits a value ≡ true
unfolding greater_than fits
fits_mono a b value g f = ground arith

-- The largest value of a type.
largest : PrimaryType → ℤ
unfolding memory_length
largest a = pos (2 ^ (memory_length a - 1) - 1)

-- A type that takes the largest value of another is at least as wide.
fits-largest :
    (a b : PrimaryType)
    → (fits b (largest b) ≡ true → fits a (largest b) ≡ true)
    → greater_than a b ≡ true
unfolding fits greater_than memory_length largest
fits-largest a b h = ground arith

-- The values that fit a type are those of its width in two's complement, none for `void`; and one type is
-- greater than another exactly when every value that fits the other fits it.
pub greater_than_iff :
    (a b : PrimaryType)
    → ((value : ℤ)
        → (fits a value ≡ true) ↔ (
            (0 < memory_length a)
            × (negsuc (2 ^ (memory_length a - 1) - 1) ≤ℤ value)
            × (value <ℤ pos (2 ^ (memory_length a - 1)))))
      × ((greater_than a b ≡ true) ↔ ((value : ℤ) → fits b value ≡ true → fits a value ≡ true))
greater_than_iff a b = (
  λ value. fits_range a value,
  (λ g value f. fits_mono a b value g f, λ h. fits-largest a b (h (largest b))),
)
