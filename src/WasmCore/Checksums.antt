-- ===== src/WasmCore/Checksums.antt =====
-- The header of a message of src/umsbb_wasm_core.c read back from its bytes.
use Prim.Native.Nat.{max, digits, differ, bit_or, bit_xor, bit_or-bitwise, bit_xor-bitwise}
use universal_multi_segmente.Prelude.{
  ℕ, zero, suc, ◌*◌, ◌/◌, ◌%◌, ◌^◌, ◌≤◌, ◌<◌, ◌≡◌, refl, List, [], ◌∷◌, arith, length, All,
}
use native.Mathlib.Numerals.{unary_clauses}
use universal_multi_segmente.Standalone.Bytes.{to_bytes, take, drop, from_bytes-to_bytes}
use universal_multi_segmente.WasmCore.{MessageHeader, max_message_size}
use universal_multi_segmente.WasmCore.Words.{
  mix, checksum_from, calculate_checksum, encode, decode, message_header,
}

two_pow : (k : ℕ) → 2 ^ suc k ≡ 2 ^ k * 2
two_pow k = simp unary_clauses

-- An operation on binary digits does not make a number longer.
digits_small :
    (f : ℕ → ℕ → ℕ)
    → ((x y : ℕ) → x < 2 → y < 2 → f x y < 2)
    → (n k a b : ℕ) → a < 2 ^ k
    → b < 2 ^ k
    → digits (λ y. y) f n a b < 2 ^ k
digits_small f v zero k a b p q = q
digits_small f v (suc n) k zero b p q = q
digits_small f v (suc n) zero (suc a) b p q = absurd (omega arith)
digits_small f v (suc n) (suc k) (suc a) b p q = omega (
  arith,
  two_pow k,
  v (suc a % 2) (b % 2) (omega arith) (omega arith),
  digits_small f v n k (suc a / 2) (b / 2) (omega (arith, two_pow k)) (omega (arith, two_pow k)),
)

max_small : (x y : ℕ) → x < 2 → y < 2 → max x y < 2
max_small x y h k = omega arith

differ_small : (x y : ℕ) → x < 2 → y < 2 → differ x y < 2
differ_small zero y h k = k
differ_small (suc x) zero h k = h
differ_small (suc x) (suc y) h k = differ_small x y (omega arith) (omega arith)

bit_or_small : (k a b : ℕ) → a < 2 ^ k → b < 2 ^ k → bit_or a b < 2 ^ k
bit_or_small k a b p q = omega (arith, bit_or-bitwise a b, digits_small max max_small a k a b p q)

bit_xor_small : (k a b : ℕ) → a < 2 ^ k → b < 2 ^ k → bit_xor a b < 2 ^ k
bit_xor_small k a b p q =
    omega (arith, bit_xor-bitwise a b, digits_small differ differ_small a k a b p q)

mix_small : (c b : ℕ) → c < 2 ^ 32 → b < 2 ^ 32 → mix c b < 2 ^ 32
unfolding mix
mix_small c b h k =
    bit_xor_small 32 _ b
      (bit_or_small 32 ((c * 2) % 2 ^ 32) (c / 2 ^ 31) (omega arith) (omega arith)) k

-- Every byte is less than 256.
abbrev pub Bytes : List ℕ → Type 0
Bytes = All (λ b. b < 256)

checksum_from_small : (c : ℕ) (bs : List ℕ) → Bytes bs → c < 2 ^ 32 → checksum_from c bs < 2 ^ 32
unfolding checksum_from
checksum_from_small c [] v h = h
checksum_from_small c (b ∷ bs) v h =
    checksum_from_small (mix c b) bs v.1 (mix_small c b h (omega (arith, v.0)))

pub length-encode : (h : MessageHeader) → length (encode h) ≡ 16
unfolding encode to_bytes
length-encode h = refl

decode-encode :
    (h : MessageHeader)
    → h.size < 2 ^ 32
    → h.checksum < 2 ^ 32
    → h.timestamp < 2 ^ 64
    → decode (encode h) ≡ h
unfolding encode decode take drop
decode-encode h p q r = rw (
  from_bytes-to_bytes 4 h.size p,
  from_bytes-to_bytes 4 h.checksum q,
  from_bytes-to_bytes 8 h.timestamp r,
)

-- A message that the code takes.
pub record IsMessage (m : List ℕ) : Type 0 where
  pub nonempty : 0 < length m
  pub short : length m ≤ max_message_size
  pub bytes : Bytes m

-- The header that is written for a message is read back.
pub decode-encode-message_header :
    (time : ℕ) (m : List ℕ)
    → time < 2 ^ 64
    → IsMessage m
    → decode (encode (message_header time m)) ≡ message_header time m
unfolding message_header calculate_checksum
decode-encode-message_header time m t v =
    decode-encode (message_header time m) (omega (arith, v.short))
      (checksum_from_small 0x5a5a5a5a m v.bytes (omega arith)) t
