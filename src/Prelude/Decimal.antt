-- ===== src/Prelude/Decimal.antt =====
-- `std::to_string` on unsigned numbers: the decimal digits, most significant first.
use Prim.Native.Nat.{ℕ, zero, suc, ◌+◌, ◌-◌, ◌*◌, ◌/◌, ◌%◌, ◌<◌}
use Prim.Native.Char.{Char, code}
use Prim.Native.String.{String}
use mathlib.Core.Path.{◌≡◌, refl, sym, ap, ◌∙◌}
use native.Mathlib.Omega.{arith}
use caramel.Prelude.Tests.{ltb, if◌then◌else◌, Bool-cases}
use mathlib.Core.Logic.{inl, inr}

-- '0' + d, for a digit d.
digit : ℕ → Char
digit zero = "0"
digit (suc zero) = "1"
digit (suc (suc zero)) = "2"
digit (suc (suc (suc zero))) = "3"
digit (suc (suc (suc (suc zero)))) = "4"
digit (suc (suc (suc (suc (suc zero))))) = "5"
digit (suc (suc (suc (suc (suc (suc zero)))))) = "6"
digit (suc (suc (suc (suc (suc (suc (suc zero))))))) = "7"
digit (suc (suc (suc (suc (suc (suc (suc (suc zero)))))))) = "8"
digit _ = "9"

-- The digits of n in front of a text; more fuel than n has digits is enough.
digits_before : ℕ → ℕ → String → String
digits_before zero n rest = rest
digits_before (suc fuel) n rest =
    let more = digits_before fuel (n / 10) (String.◌∷◌ (digit (n % 10)) rest) in
    if ltb n 10 then String.◌∷◌ (digit n) rest else more

unfoldable pub to_string : ℕ → String
unfolding digits_before digit
to_string n = digits_before (suc n) n String.[]

-- The number that a text of digits stands for, read from the left.
read : ℕ → String → ℕ
read v String.[] = v
read v (String.◌∷◌ c s) = read (v * 10 + (code c - 48)) s

code-digit : (d : ℕ) → d < 10 → code (digit d) - 48 ≡ d
unfolding digit
code-digit zero h = refl
code-digit (suc zero) h = refl
code-digit (suc (suc zero)) h = refl
code-digit (suc (suc (suc zero))) h = refl
code-digit (suc (suc (suc (suc zero)))) h = refl
code-digit (suc (suc (suc (suc (suc zero))))) h = refl
code-digit (suc (suc (suc (suc (suc (suc zero)))))) h = refl
code-digit (suc (suc (suc (suc (suc (suc (suc zero))))))) h = refl
code-digit (suc (suc (suc (suc (suc (suc (suc (suc zero)))))))) h = refl
code-digit (suc (suc (suc (suc (suc (suc (suc (suc (suc zero))))))))) h = refl
code-digit (suc (suc (suc (suc (suc (suc (suc (suc (suc (suc d)))))))))) h = absurd (omega arith)

one_digit : (n : ℕ) → n < 10 → 0 * 10 + (code (digit n) - 48) ≡ n
one_digit n h = rw (code-digit n h) (omega arith)

last_digit : (n : ℕ) → n / 10 * 10 + (code (digit (n % 10)) - 48) ≡ n
last_digit n = rw (code-digit (n % 10) (omega arith)) (omega arith)

read-digits_before :
    (fuel n : ℕ) (rest : String) → n < fuel → read 0 (digits_before fuel n rest) ≡ read n rest
unfolding digits_before read
read-digits_before zero n rest h = absurd (omega arith)
read-digits_before (suc fuel) n rest h = elim (Bool-cases (ltb n 10)) [
  | inl small ↦ rw small (ap (λ v. read v rest) (one_digit n (ground arith)))
  | inr large ↦ rw large (
      read-digits_before fuel (n / 10) (String.◌∷◌ (digit (n % 10)) rest) (ground arith)
      ∙ ap (λ v. read v rest) (last_digit n))
]

pub to_string-injective : (m n : ℕ) → to_string m ≡ to_string n → m ≡ n
unfolding to_string read
to_string-injective m n e =
    sym (read-digits_before (suc m) m String.[] (omega arith))
    ∙ ap (read 0) e
    ∙ read-digits_before (suc n) n String.[] (omega arith)
