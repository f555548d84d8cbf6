-- ===== src/Standalone/Stored.antt =====
-- Messages in the bytes of a segment of src/umsbb_complete_core.c, one behind the other.
use universal_multi_segmente.Prelude.{
  ℕ, ◌+◌, ◌*◌, ◌%◌, ◌^◌, ◌≤◌, ◌<◌, ◌≡◌, refl, ap, ◌∙◌, subst, inl, List, [], ◌∷◌, ◌++◌, arith,
  length,
}
use universal_multi_segmente.Standalone.{header_size, magic_number, max_message_size}
use universal_multi_segmente.Standalone.Bytes.{
  store, load, encode, decode, checksum_loop, calculate_checksum, align_size, load-store_self,
  load-store_apart, length-encode, IsHeader, decode-encode,
}
use universal_multi_segmente.Standalone.Messages.{stride, message_header}

-- A message that the code takes.
pub record IsMessage (m : List ℕ) : Type 0 where
  pub nonempty : 0 < length m
  pub short : length m ≤ max_message_size

pub stride_bounds : (n : ℕ) → n ≤ max_message_size → (n + 64 ≤ stride n) × (stride n ≤ n + 127)
unfolding stride align_size
stride_bounds n h = (omega arith, omega arith)

checksum_loop_small : (c : ℕ) (bs : List ℕ) → c < 2 ^ 32 → checksum_loop c bs < 2 ^ 32
unfolding checksum_loop
checksum_loop_small c [] h = h
checksum_loop_small c (b ∷ bs) h = checksum_loop_small ((c * 31 + b) % 2 ^ 32) bs (omega arith)

pub message_header-IsHeader :
    (sequence timestamp : ℕ) (m : List ℕ)
    → sequence < 2 ^ 64
    → timestamp < 2 ^ 64
    → IsMessage m
    → IsHeader (message_header sequence timestamp m)
unfolding message_header calculate_checksum
message_header-IsHeader sequence timestamp m s t v = record {
  magic_fits = omega arith;
  size_fits = omega (arith, v.short);
  sequence_fits = s;
  timestamp_fits = t;
  checksum_fits = checksum_loop_small 0 m (omega arith);
  flags_fits = omega arith;
}

-- The message `m`, with its header, stands at offset `o`.
pub record IsStored (d : ℕ → ℕ) (o : ℕ) (m : List ℕ) : Type 0 where
  pub message : IsMessage m
  pub magic : (decode (load d o header_size)).magic ≡ magic_number
  pub size : (decode (load d o header_size)).size ≡ length m
  pub checksum : (decode (load d o header_size)).checksum ≡ calculate_checksum m
  pub payload : load d (o + header_size) (length m) ≡ m

-- The messages stand one behind the other from offset `o` to offset `e`.
abbrev pub Stored : (ℕ → ℕ) → ℕ → List (List ℕ) → ℕ → Type 0
Stored d o [] e = o ≡ e
Stored d o (m ∷ ms) e = IsStored d o m × Stored d (o + stride (length m)) ms e

pub Stored-le : (d : ℕ → ℕ) (o : ℕ) (ms : List (List ℕ)) (e : ℕ) → Stored d o ms e → o ≤ e
Stored-le d o [] e s = omega arith
Stored-le d o (m ∷ ms) e s = omega (
  arith,
  stride_bounds (length m) s.0.message.short,
  Stored-le d (o + stride (length m)) ms e s.1,
)

-- Every message takes 65 bytes or more.
pub Stored-length :
    (d : ℕ → ℕ) (o : ℕ) (ms : List (List ℕ)) (e : ℕ) → Stored d o ms e → o + length ms ≤ e
Stored-length d o [] e s = omega (arith, s)
Stored-length d o (m ∷ ms) e s = omega (
  arith,
  stride_bounds (length m) s.0.message.short,
  Stored-length d (o + stride (length m)) ms e s.1,
)

pub Stored-snoc :
    (d : ℕ → ℕ) (o : ℕ) (ms : List (List ℕ)) (e : ℕ) (m : List ℕ)
    → Stored d o ms e
    → IsStored d e m
    → Stored d o (ms ++ m ∷ []) (e + stride (length m))
Stored-snoc d o [] e m s t = rw s (t, refl)
Stored-snoc d o (n ∷ ms) e m s t = (s.0, Stored-snoc d (o + stride (length n)) ms e m s.1 t)

IsStored-store :
    (d : ℕ → ℕ) (o : ℕ) (m : List ℕ) (p : ℕ) (bs : List ℕ)
    → IsStored d o m
    → o + header_size + length m ≤ p
    → IsStored (store d p bs) o m
IsStored-store d o m p bs s h =
    let head = load-store_apart d p bs o header_size (inl (omega arith)) in
    record {
      message = s.message;
      magic = ap (λ l. (decode l).magic) head ∙ s.magic;
      size = ap (λ l. (decode l).size) head ∙ s.size;
      checksum = ap (λ l. (decode l).checksum) head ∙ s.checksum;
      payload =
          load-store_apart d p bs (o + header_size) (length m) (inl (omega arith)) ∙ s.payload;
    }

-- A write at the end or behind it leaves the messages.
pub Stored-store :
    (d : ℕ → ℕ) (o : ℕ) (ms : List (List ℕ)) (e p : ℕ) (bs : List ℕ)
    → Stored d o ms e
    → e ≤ p
    → Stored (store d p bs) o ms e
Stored-store d o [] e p bs s h = s
Stored-store d o (m ∷ ms) e p bs s h = (
  IsStored-store d o m p bs s.0 (
      omega (
        arith,
        stride_bounds (length m) s.0.message.short,
        Stored-le d (o + stride (length m)) ms e s.1,
      )),
  Stored-store d (o + stride (length m)) ms e p bs s.1 h,
)

-- What was copied can be read back.
pub IsStored-filled :
    (d : ℕ → ℕ) (o sequence timestamp : ℕ) (m : List ℕ)
    → sequence < 2 ^ 64
    → timestamp < 2 ^ 64
    → IsMessage m
    → IsStored
        (store (store d o (encode (message_header sequence timestamp m))) (o + header_size) m)
        o
        m
unfolding message_header
IsStored-filled d o sequence timestamp m s t v =
    let h = message_header sequence timestamp m in
    let d1 = store d o (encode h) in
    let head : decode (load (store d1 (o + header_size) m) o header_size) ≡ h =
      ap decode (
        load-store_apart d1 (o + header_size) m o header_size (inl (omega arith))
        ∙ subst (λ n. load d1 o n ≡ encode h) (length-encode h) (load-store_self d o (encode h)))
      ∙ decode-encode h (message_header-IsHeader sequence timestamp m s t v) in
    record {
      message = v;
      magic = ap (λ x. x.magic) head;
      size = ap (λ x. x.size) head;
      checksum = ap (λ x. x.checksum) head;
      payload = load-store_self d1 (o + header_size) m;
    }
