-- ===== src/Prelude/Bits.antt =====
-- The lowest bit, and shifts to the right: `x & 1`, `x ^ 1`, `x >> k`.
use Prim.Native.Nat.{
  ℕ, zero, suc, ◌+◌, ◌-◌, ◌*◌, ◌/◌, ◌%◌, ◌^◌, ◌≤◌, ◌<◌, min, bit_and, bit_xor, digits, differ,
  bit_and-bitwise, bit_xor-bitwise,
}
use mathlib.Core.Path.{◌≡◌, refl, ap, ◌∙◌}
use native.Mathlib.Omega.{arith}
use native.Mathlib.Nat.{div-div-eq-div-mul, pow-suc}
use native.Mathlib.Numerals.{add-one}

abbrev pub shr : ℕ → ℕ → ℕ
shr x k = x / 2 ^ k

pub shr-suc : (x k : ℕ) → shr x (k + 1) ≡ shr x k / 2
shr-suc x k =
    rw (div-div-eq-div-mul x (2 ^ k) 2)
      (ap (λ p. x / p) (ap (λ j. 2 ^ j) (add-one k) ∙ pow-suc 2 k))

bit_and-zero : (n a : ℕ) → digits (λ b. zero) min n a 0 ≡ 0
bit_and-zero zero a = refl
bit_and-zero (suc n) zero = refl
bit_and-zero (suc n) (suc a) = omega (arith, bit_and-zero n (suc a / 2))

pub bit_and-one : (a : ℕ) → bit_and a 1 ≡ a % 2
bit_and-one zero = refl
bit_and-one (suc a) = omega (arith, bit_and-bitwise (suc a) 1, bit_and-zero a (suc a / 2))

differ-zero : (a : ℕ) → differ a 0 ≡ a
differ-zero zero = refl
differ-zero (suc a) = refl

bit_xor-zero : (n a : ℕ) → a ≤ n → digits (λ b. b) differ n a 0 ≡ a
bit_xor-zero zero zero h = refl
bit_xor-zero zero (suc a) h = elim h [ ]
bit_xor-zero (suc n) zero h = refl
bit_xor-zero (suc n) (suc a) h =
    omega (arith, bit_xor-zero n (suc a / 2) (omega arith), differ-zero (suc a % 2))

differ-one : (b : ℕ) → b < 2 → differ b 1 ≡ 1 - b
differ-one zero h = refl
differ-one (suc zero) h = refl
differ-one (suc (suc b)) h = absurd (omega arith)

pub bit_xor-one : (a : ℕ) → bit_xor a 1 ≡ a + 1 - 2 * (a % 2)
bit_xor-one zero = refl
bit_xor-one (suc a) = omega (
  arith,
  bit_xor-bitwise (suc a) 1,
  bit_xor-zero a (suc a / 2) (omega arith),
  differ-one (suc a % 2) (omega arith),
)
