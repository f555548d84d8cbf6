-- ===== src/Parallel/Masks.antt =====
-- The mask of a ring of include/parallel_throughput_engine.h.
use Prim.Native.Nat.{min, digits, bit_and, bit_and-bitwise}
use universal_multi_segmente.Prelude.{ℕ, zero, suc, ◌+◌, ◌*◌, ◌/◌, ◌%◌, ◌≤◌, ◌≡◌, refl, arith}

-- The count of digits to go does not matter, if it is enough.
and_digits-count :
    (n k a b : ℕ) → a ≤ n → a ≤ k → digits (λ y. 0) min n a b ≡ digits (λ y. 0) min k a b
and_digits-count zero zero a b p q = refl
and_digits-count zero (suc k) zero b p q = refl
and_digits-count zero (suc k) (suc a) b p q = absurd (omega arith)
and_digits-count (suc n) zero zero b p q = refl
and_digits-count (suc n) zero (suc a) b p q = absurd (omega arith)
and_digits-count (suc n) (suc k) zero b p q = refl
and_digits-count (suc n) (suc k) (suc a) b p q =
    omega (arith, and_digits-count n k (suc a / 2) (b / 2) (omega arith) (omega arith))

bit_and-zero_left : (b : ℕ) → bit_and 0 b ≡ 0
bit_and-zero_left b = bit_and-bitwise 0 b

bit_and-halves : (a b : ℕ) → bit_and a b ≡ bit_and (a / 2) (b / 2) * 2 + min (a % 2) (b % 2)
bit_and-halves zero b = omega (arith, bit_and-zero_left b, bit_and-zero_left (b / 2))
bit_and-halves (suc a) b = omega (
  arith,
  bit_and-bitwise (suc a) b,
  bit_and-bitwise (suc a / 2) (b / 2),
  and_digits-count a (suc a / 2) (suc a / 2) (b / 2) (omega arith) (omega arith),
)

and_digits-zero : (n a : ℕ) → digits (λ y. 0) min n a 0 ≡ 0
and_digits-zero zero a = refl
and_digits-zero (suc n) zero = refl
and_digits-zero (suc n) (suc a) = omega (arith, and_digits-zero n (suc a / 2))

bit_and-zero_right : (a : ℕ) → bit_and a 0 ≡ 0
bit_and-zero_right a = omega (arith, bit_and-bitwise a 0, and_digits-zero a a)

bit_and-1 : (a : ℕ) → bit_and a 1 ≡ a % 2
bit_and-1 a = omega (arith, bit_and-halves a 1, bit_and-zero_right (a / 2))

bit_and-7 : (a : ℕ) → bit_and a 7 ≡ a % 8
bit_and-7 a = omega (arith, bit_and-halves a 7, bit_and-halves (a / 2) 3, bit_and-1 (a / 2 / 2))

bit_and-63 : (a : ℕ) → bit_and a 63 ≡ a % 64
bit_and-63 a = omega (
  arith,
  bit_and-halves a 63,
  bit_and-halves (a / 2) 31,
  bit_and-halves (a / 2 / 2) 15,
  bit_and-7 (a / 2 / 2 / 2),
)

bit_and-511 : (a : ℕ) → bit_and a 511 ≡ a % 512
bit_and-511 a = omega (
  arith,
  bit_and-halves a 511,
  bit_and-halves (a / 2) 255,
  bit_and-halves (a / 2 / 2) 127,
  bit_and-63 (a / 2 / 2 / 2),
)

-- A mask of twelve ones takes the remainder.
pub bit_and-4095 : (a : ℕ) → bit_and a 4095 ≡ a % 4096
bit_and-4095 a = omega (
  arith,
  bit_and-halves a 4095,
  bit_and-halves (a / 2) 2047,
  bit_and-halves (a / 2 / 2) 1023,
  bit_and-511 (a / 2 / 2 / 2),
)
