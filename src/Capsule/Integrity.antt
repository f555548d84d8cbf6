-- ===== src/Capsule/Integrity.antt =====
-- What the checksum of src/capsule.c detects.
use universal_multi_segmente.Prelude.{
  ℕ, zero, suc, ◌+◌, ◌%◌, ◌^◌, ◌≤◌, ◌<◌, ◌≡◌, refl, ap₂, ◌∙◌, ◌≢◌, true, false, arith, ◌==◌, add32,
}
use native.Mathlib.Decide.{dec_lt}
use universal_multi_segmente.Capsule.{
  Memory, checksum_loop, capsule_checksum, capsule_wrap, capsule_validate,
}

-- The sum of the `n` bytes from `p + i` on.
pub total : Memory → ℕ → ℕ → ℕ → ℕ
total m p zero i = 0
total m p (suc n) i = m (p + i) % 256 + total m p n (i + 1)

checksum_loop-total :
    (m : Memory) (p n i s : ℕ) → s < 2 ^ 32 → checksum_loop m p n i s ≡ (s + total m p n i) % 2 ^ 32
unfolding checksum_loop total
checksum_loop-total m p zero i s h = omega arith
checksum_loop-total m p (suc n) i s h =
    omega (arith, checksum_loop-total m p n (i + 1) (add32 s (m (p + i) % 256)) (omega arith))

-- The checksum is the sum of the bytes, modulo 2 ^ 32.
pub capsule_checksum_lem : (m : Memory) (p n : ℕ) → capsule_checksum m p n ≡ total m p n 0 % 2 ^ 32
unfolding capsule_checksum
capsule_checksum_lem m p n = omega (arith, checksum_loop-total m p n 0 0 (omega arith))

-- A wrapped capsule validates, against the memory as it is later, exactly when the sum of the
-- payload's bytes is then what it was, modulo 2 ^ 32.
pub validate-wrap :
    (m m' : Memory) (now seq p n : ℕ)
    → capsule_validate m' (capsule_wrap m now seq p n)
      ≡ (total m' p n 0 % 2 ^ 32 == total m p n 0 % 2 ^ 32)
unfolding capsule_validate capsule_wrap
validate-wrap m m' now seq p n = rw (capsule_checksum_lem m p n, capsule_checksum_lem m' p n)

-- Two memories hold the same bytes, from `p + i` on, at the `n` places but `p + k`.
abbrev pub SameBut : Memory → Memory → ℕ → ℕ → ℕ → Type 0
SameBut m m' p n k = (j : ℕ) → j < n → j ≢ k → m' (p + j) % 256 ≡ m (p + j) % 256

total-same :
    (m m' : Memory) (p n i : ℕ)
    → ((j : ℕ) → i ≤ j → j < i + n → m' (p + j) % 256 ≡ m (p + j) % 256)
    → total m' p n i ≡ total m p n i
unfolding total
total-same m m' p zero i h = refl
total-same m m' p (suc n) i h =
    ap₂ ◌+◌ (h i (omega arith) (omega arith))
      (total-same m m' p n (i + 1) (λ j lo hi. h j (omega arith) (omega arith)))

total-change :
    (m m' : Memory) (p n i k : ℕ)
    → i ≤ k
    → k < i + n
    → ((j : ℕ) → i ≤ j → j < i + n → j ≢ k → m' (p + j) % 256 ≡ m (p + j) % 256)
    → total m' p n i + m (p + k) % 256 ≡ total m p n i + m' (p + k) % 256
unfolding total
total-change m m' p zero i k lo hi h = absurd (omega arith)
total-change m m' p (suc n) i k lo hi h = elim (dec_lt i k) [
  | yes lt ↦ omega (
    arith,
    h i (omega arith) (omega arith) (omega arith),
    total-change m m' p n (i + 1) k (omega arith) (omega arith)
        (λ j a b ne. h j (omega arith) (omega arith) ne),
  )
  | no ge ↦
      let e : i ≡ k = omega arith in
      rw (← e) (
        omega (
          arith,
          total-same m m' p n (i + 1) (λ j a b. h j (omega arith) (omega arith) (omega arith)),
        ))
]

-- If one byte of the payload changes between the wrapping and the validation, and no other does, the
-- capsule is refused.
pub one_byte_detected :
    (m m' : Memory) (now seq p n k : ℕ)
    → k < n
    → m' (p + k) % 256 ≢ m (p + k) % 256
    → SameBut m m' p n k
    → capsule_validate m' (capsule_wrap m now seq p n) ≡ false
one_byte_detected m m' now seq p n k h ne same =
    validate-wrap m m' now seq p n
    ∙ ground (
      arith,
      total-change m m' p n 0 k (omega arith) (omega arith) (λ j a b d. same j (omega arith) d),
    )

-- A capsule validates as long as the bytes of its payload stay what they were.
pub validate-same :
    (m m' : Memory) (now seq p n : ℕ)
    → ((j : ℕ) → j < n → m' (p + j) % 256 ≡ m (p + j) % 256)
    → capsule_validate m' (capsule_wrap m now seq p n) ≡ true
validate-same m m' now seq p n same =
    validate-wrap m m' now seq p n
    ∙ ground (arith, total-same m m' p n 0 (λ j a b. same j (omega arith)))
