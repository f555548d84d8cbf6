-- ===== src/Standalone/Bytes.antt =====
-- Bytes in a segment of src/umsbb_complete_core.c: memcpy, the layout of a message header, the
-- checksum and the alignment.
use universal_multi_segmente.Prelude.{
  ℕ, zero, suc, ◌+◌, ◌-◌, ◌*◌, ◌/◌, ◌%◌, ◌^◌, ◌≤◌, ◌<◌, ◌≡◌, refl, ap, ap₂, ◌∙◌, ◌⊎◌, inl, inr,
  List, [], ◌∷◌, ◌++◌, arith, update, add32, length, replicate,
}
use native.Mathlib.Numerals.{unary_clauses}
use universal_multi_segmente.Standalone.{MessageHeader}

-- `memcpy` of bytes to the offset `o`.
unfoldable pub store : (ℕ → ℕ) → ℕ → List ℕ → ℕ → ℕ
store d o [] = d
store d o (b ∷ bs) = store (update d o b) (o + 1) bs

-- `memcpy` of `n` bytes from the offset `o`.
unfoldable pub load : (ℕ → ℕ) → ℕ → ℕ → List ℕ
load d o zero = []
load d o (suc n) = d o ∷ load d (o + 1) n

pub store-outside :
    (d : ℕ → ℕ) (o : ℕ) (bs : List ℕ) (i : ℕ) → (i < o) ⊎ (o + length bs ≤ i) → store d o bs i ≡ d i
unfolding store
store-outside d o [] i h = refl
store-outside d o (b ∷ bs) i (inl h) =
    store-outside (update d o b) (o + 1) bs i (inl (omega arith)) ∙ ground arith
store-outside d o (b ∷ bs) i (inr h) =
    store-outside (update d o b) (o + 1) bs i (inr (omega arith)) ∙ ground arith

pub load-store_self : (d : ℕ → ℕ) (o : ℕ) (bs : List ℕ) → load (store d o bs) o (length bs) ≡ bs
unfolding store load
load-store_self d o [] = refl
load-store_self d o (b ∷ bs) =
    ap₂ ◌∷◌ (store-outside (update d o b) (o + 1) bs o (inl (omega arith)) ∙ ground arith)
      (load-store_self (update d o b) (o + 1) bs)

pub load-store_apart :
    (d : ℕ → ℕ) (o : ℕ) (bs : List ℕ) (p n : ℕ)
    → (p + n ≤ o) ⊎ (o + length bs ≤ p)
    → load (store d o bs) p n ≡ load d p n
unfolding load
load-store_apart d o bs p zero h = refl
load-store_apart d o bs p (suc n) (inl h) =
    ap₂ ◌∷◌ (store-outside d o bs p (inl (omega arith)))
      (load-store_apart d o bs (p + 1) n (inl (omega arith)))
load-store_apart d o bs p (suc n) (inr h) =
    ap₂ ◌∷◌ (store-outside d o bs p (inr h)) (load-store_apart d o bs (p + 1) n (inr (omega arith)))

pub length-load : (d : ℕ → ℕ) (o n : ℕ) → length (load d o n) ≡ n
unfolding load
length-load d o zero = refl
length-load d o (suc n) = ap suc (length-load d (o + 1) n)

-- The `w` bytes of a word, the lowest first.
unfoldable pub to_bytes : ℕ → ℕ → List ℕ
to_bytes zero v = []
to_bytes (suc w) v = v % 256 ∷ to_bytes w (v / 256)

unfoldable pub from_bytes : List ℕ → ℕ
from_bytes [] = 0
from_bytes (b ∷ bs) = b + 256 * from_bytes bs

unfoldable pub take : List ℕ → ℕ → List ℕ
take bs zero = []
take [] (suc n) = []
take (b ∷ bs) (suc n) = b ∷ take bs n

unfoldable pub drop : List ℕ → ℕ → List ℕ
drop bs zero = bs
drop [] (suc n) = []
drop (b ∷ bs) (suc n) = drop bs n

-- The 64 bytes of a header, on a machine that puts the lowest byte first.
unfoldable pub encode : MessageHeader → List ℕ
unfolding to_bytes
encode h =
    to_bytes 4 h.magic
    ++ to_bytes 4 h.size
    ++ to_bytes 8 h.sequence
    ++ to_bytes 8 h.timestamp
    ++ to_bytes 4 h.checksum
    ++ to_bytes 4 h.flags
    ++ replicate 32 0

unfoldable pub decode : List ℕ → MessageHeader
decode bs = record {
  magic = from_bytes (take bs 4);
  size = from_bytes (take (drop bs 4) 4);
  sequence = from_bytes (take (drop bs 8) 8);
  timestamp = from_bytes (take (drop bs 16) 8);
  checksum = from_bytes (take (drop bs 24) 4);
  flags = from_bytes (take (drop bs 28) 4);
}

pub length-encode : (h : MessageHeader) → length (encode h) ≡ 64
unfolding encode to_bytes
length-encode h = refl

pub from_bytes-to_bytes : (w v : ℕ) → v < 256 ^ w → from_bytes (to_bytes w v) ≡ v
unfolding to_bytes from_bytes
from_bytes-to_bytes zero v h = omega arith
from_bytes-to_bytes (suc w) v h =
    let e : 256 ^ suc w ≡ 256 ^ w * 256 = simp unary_clauses in
    omega (arith, from_bytes-to_bytes w (v / 256) (omega (arith, e)))

-- The fields of a header are words of their width.
pub record IsHeader (h : MessageHeader) : Type 0 where
  pub magic_fits : h.magic < 2 ^ 32
  pub size_fits : h.size < 2 ^ 32
  pub sequence_fits : h.sequence < 2 ^ 64
  pub timestamp_fits : h.timestamp < 2 ^ 64
  pub checksum_fits : h.checksum < 2 ^ 32
  pub flags_fits : h.flags < 2 ^ 32

pub decode-encode : (h : MessageHeader) → IsHeader h → decode (encode h) ≡ h
unfolding encode decode take drop
decode-encode h v = rw (
  from_bytes-to_bytes 4 h.magic v.magic_fits,
  from_bytes-to_bytes 4 h.size v.size_fits,
  from_bytes-to_bytes 8 h.sequence v.sequence_fits,
  from_bytes-to_bytes 8 h.timestamp v.timestamp_fits,
  from_bytes-to_bytes 4 h.checksum v.checksum_fits,
  from_bytes-to_bytes 4 h.flags v.flags_fits,
)

-- The loop of `umsbb_calculate_checksum`, with `checksum`.
unfoldable pub checksum_loop : ℕ → List ℕ → ℕ
checksum_loop c [] = c
checksum_loop c (b ∷ bs) = checksum_loop ((c * 31 + b) % 2 ^ 32) bs

unfoldable pub calculate_checksum : List ℕ → ℕ
unfolding checksum_loop
calculate_checksum bs = checksum_loop 0 bs

-- The low six bits are cleared.
unfoldable pub align_size : ℕ → ℕ
align_size size = let x = add32 size 63 in x - x % 64
