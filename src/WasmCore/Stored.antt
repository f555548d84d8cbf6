-- ===== src/WasmCore/Stored.antt =====
-- A segment of src/umsbb_wasm_core.c as a queue of messages in the bytes of the heap.
use universal_multi_segmente.Prelude.{
  ℕ, zero, suc, ◌+◌, ◌*◌, ◌^◌, ◌≤◌, ◌<◌, ◌≡◌, refl, ap, ap₂, ◌∙◌, subst, ◌⊎◌, inl, inr, List, [],
  ◌∷◌, ◌++◌, arith, add32, length, length-append,
}
use universal_multi_segmente.Standalone.Bytes.{
  store, load, store-outside, load-store_self, load-store_apart,
}
use universal_multi_segmente.WasmCore.{header_size, Segment}
use universal_multi_segmente.WasmCore.Words.{calculate_checksum, encode, decode, message_header}
use universal_multi_segmente.WasmCore.Writing.{copy_message, extended}
use universal_multi_segmente.WasmCore.Reading.{advanced}
use universal_multi_segmente.WasmCore.Checksums.{
  IsMessage, length-encode, decode-encode-message_header,
}

-- Both give the same bytes, but from offset `lo` to offset `hi`.
abbrev pub SameOutside : (ℕ → ℕ) → (ℕ → ℕ) → ℕ → ℕ → Type 0
SameOutside d d' lo hi = (o : ℕ) → (o < lo) ⊎ (hi ≤ o) → d' o ≡ d o

load-SameOutside :
    (d d' : ℕ → ℕ) (lo hi p n : ℕ)
    → SameOutside d d' lo hi
    → (p + n ≤ lo) ⊎ (hi ≤ p)
    → load d' p n ≡ load d p n
unfolding load
load-SameOutside d d' lo hi p zero s h = refl
load-SameOutside d d' lo hi p (suc n) s (inl h) =
    ap₂ ◌∷◌ (s p (inl (omega arith))) (load-SameOutside d d' lo hi (p + 1) n s (inl (omega arith)))
load-SameOutside d d' lo hi p (suc n) s (inr h) =
    ap₂ ◌∷◌ (s p (inr h)) (load-SameOutside d d' lo hi (p + 1) n s (inr (omega arith)))

pub copy_message-SameOutside :
    (d : ℕ → ℕ) (p time : ℕ) (m : List ℕ)
    → SameOutside d (copy_message d p (message_header time m) m) p (p + header_size + length m)
unfolding copy_message
copy_message-SameOutside d p time m o (inl h) =
    let head = encode (message_header time m) in
    store-outside (store d p head) (p + header_size) m o (inl (omega arith))
    ∙ store-outside d p head o (inl h)
copy_message-SameOutside d p time m o (inr h) =
    let head = encode (message_header time m) in
    store-outside (store d p head) (p + header_size) m o (inr h)
    ∙ store-outside d p head o (inr (omega (arith, length-encode (message_header time m))))

-- The message `m`, with its header, stands at offset `o`.
pub record IsStored (d : ℕ → ℕ) (o : ℕ) (m : List ℕ) : Type 0 where
  pub message : IsMessage m
  pub size : (decode (load d o header_size)).size ≡ length m
  pub checksum : (decode (load d o header_size)).checksum ≡ calculate_checksum m
  pub payload : load d (o + header_size) (length m) ≡ m

-- What was copied can be read back.
pub copy_message-IsStored :
    (d : ℕ → ℕ) (o time : ℕ) (m : List ℕ)
    → time < 2 ^ 64
    → IsMessage m
    → IsStored (copy_message d o (message_header time m) m) o m
unfolding copy_message message_header
copy_message-IsStored d o time m t v =
    let h = message_header time m in
    let d1 = store d o (encode h) in
    let head : decode (load (store d1 (o + header_size) m) o header_size) ≡ h =
      ap decode (
        load-store_apart d1 (o + header_size) m o header_size (inl (omega arith))
        ∙ subst (λ n. load d1 o n ≡ encode h) (length-encode h) (load-store_self d o (encode h)))
      ∙ decode-encode-message_header time m t v in
    record {
      message = v;
      size = ap (λ x. x.size) head;
      checksum = ap (λ x. x.checksum) head;
      payload = load-store_self d1 (o + header_size) m;
    }

-- The messages stand one behind the other from offset `o` to offset `e`.
abbrev pub Stored : (ℕ → ℕ) → ℕ → List (List ℕ) → ℕ → Type 0
Stored d o [] e = o ≡ e
Stored d o (m ∷ ms) e = IsStored d o m × Stored d (o + header_size + length m) ms e

pub Stored-length :
    (d : ℕ → ℕ) (o : ℕ) (ms : List (List ℕ)) (e : ℕ)
    → Stored d o ms e
    → o + header_size * length ms ≤ e
Stored-length d o [] e s = omega (arith, s)
Stored-length d o (m ∷ ms) e s =
    omega (arith, Stored-length d (o + header_size + length m) ms e s.1)

Stored-snoc :
    (d : ℕ → ℕ) (o : ℕ) (ms : List (List ℕ)) (e : ℕ) (m : List ℕ)
    → Stored d o ms e
    → IsStored d e m
    → Stored d o (ms ++ m ∷ []) (e + header_size + length m)
Stored-snoc d o [] e m s t = rw s (t, refl)
Stored-snoc d o (n ∷ ms) e m s t = (s.0, Stored-snoc d (o + header_size + length n) ms e m s.1 t)

-- A range of bytes keeps clear of the one from `lo` to `hi`.
abbrev pub Clear : ℕ → ℕ → ℕ → ℕ → Type 0
Clear o e lo hi = (e ≤ lo) ⊎ (hi ≤ o)

Clear-within : (o e o' e' lo hi : ℕ) → Clear o e lo hi → o ≤ o' → e' ≤ e → Clear o' e' lo hi
Clear-within o e o' e' lo hi (inl h) p q = inl (omega arith)
Clear-within o e o' e' lo hi (inr h) p q = inr (omega arith)

IsStored-SameOutside :
    (d d' : ℕ → ℕ) (lo hi o : ℕ) (m : List ℕ)
    → SameOutside d d' lo hi
    → Clear o (o + header_size + length m) lo hi
    → IsStored d o m
    → IsStored d' o m
IsStored-SameOutside d d' lo hi o m f c s =
    let e = o + header_size + length m in
    let head =
      load-SameOutside d d' lo hi o header_size f
        (Clear-within o e o (o + header_size) lo hi c (omega arith) (omega arith)) in
    record {
      message = s.message;
      size = ap (λ l. (decode l).size) head ∙ s.size;
      checksum = ap (λ l. (decode l).checksum) head ∙ s.checksum;
      payload =
          load-SameOutside d d' lo hi (o + header_size) (length m) f
            (Clear-within o e (o + header_size) e lo hi c (omega arith) (omega arith))
          ∙ s.payload;
    }

pub Stored-SameOutside :
    (d d' : ℕ → ℕ) (lo hi o : ℕ) (ms : List (List ℕ)) (e : ℕ)
    → SameOutside d d' lo hi
    → Clear o e lo hi
    → Stored d o ms e
    → Stored d' o ms e
Stored-SameOutside d d' lo hi o [] e f c s = s
Stored-SameOutside d d' lo hi o (m ∷ ms) e f c s =
    let o' = o + header_size + length m in
    let bound = Stored-length d o' ms e s.1 in
    (
      IsStored-SameOutside d d' lo hi o m f
          (Clear-within o e o o' lo hi c (omega arith) (omega arith)) s.0,
      Stored-SameOutside d d' lo hi o' ms e f
          (Clear-within o e o' e lo hi c (omega arith) (omega arith)) s.1,
    )

-- The segment holds the messages `ms`, the oldest first.
pub record IsQueue (d : ℕ → ℕ) (s : Segment) (ms : List (List ℕ)) : Type 0 where
  pub stored : Stored d (s.base + s.read_pos) ms (s.base + s.write_pos)
  pub counted : s.message_count ≡ length ms
  pub within : s.write_pos ≤ s.capacity
  pub small : s.capacity < 2 ^ 31

module _ {d : ℕ → ℕ} {s : Segment} {ms : List (List ℕ)} (q : IsQueue d s ms) where
  -- Bytes outside the segment do not matter.
  pub IsQueue-SameOutside :
      (d' : ℕ → ℕ) (lo hi : ℕ)
      → SameOutside d d' lo hi
      → Clear s.base (s.base + s.capacity) lo hi
      → IsQueue d' s ms
  IsQueue-SameOutside d' lo hi f c = record {
    stored =
        Stored-SameOutside d d' lo hi (s.base + s.read_pos) ms (s.base + s.write_pos) f
          (Clear-within s.base (s.base + s.capacity) _ _ lo hi c (omega arith)
            (omega (arith, q.within)))
          q.stored;
    counted = q.counted;
    within = q.within;
    small = q.small;
  }

  -- A message with room behind the write position is added at the end of the queue.
  pub extended-IsQueue :
      (time : ℕ) (m : List ℕ)
      → time < 2 ^ 64
      → IsMessage m
      → s.write_pos + header_size + length m ≤ s.capacity
      → IsQueue
          (copy_message d (s.base + s.write_pos) (message_header time m) m)
          (extended s (header_size + length m))
          (ms ++ m ∷ [])
  extended-IsQueue time m t v fits =
      let e = s.base + s.write_pos in
      let bound = Stored-length d (s.base + s.read_pos) ms e q.stored in
      let position : s.base + add32 s.write_pos (header_size + length m)
          ≡ e + header_size + length m =
        omega (arith, q.small) in
      record {
        stored = rw position (
            Stored-snoc _ (s.base + s.read_pos) ms e m
              (Stored-SameOutside d _ e (e + header_size + length m) (s.base + s.read_pos) ms e
                (copy_message-SameOutside d e time m) (inl (omega arith)) q.stored)
              (copy_message-IsStored d e time m t v));
        counted = omega (arith, q.counted, length-append ms (m ∷ []), q.within, q.small);
        within = omega (arith, q.small);
        small = q.small;
      }

module _ {d : ℕ → ℕ} {s : Segment} {m : List ℕ} {ms : List (List ℕ)}
    (q : IsQueue d s (m ∷ ms)) where
  pub advanced-IsQueue : IsQueue d (advanced s (length m)) ms
  advanced-IsQueue =
      let long =
        Stored-length d (s.base + s.read_pos + header_size + length m) ms (s.base + s.write_pos)
          q.stored.1 in
      let position : s.base + add32 s.read_pos (add32 header_size (length m))
          ≡ s.base + s.read_pos + header_size + length m =
        omega (arith, q.within, q.small) in
      record {
        stored = rw position q.stored.1;
        counted = omega (arith, q.counted, q.within, q.small);
        within = q.within;
        small = q.small;
      }
