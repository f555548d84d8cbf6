-- ===== src/Standalone/Queue.antt =====
-- One segment of src/umsbb_complete_core.c as a queue of messages, up to its first wrap-around.
use universal_multi_segmente.Prelude.{
  ℕ, ◌+◌, ◌%◌, ◌^◌, ◌≤◌, ◌<◌, ◌≡◌, ap₂, ◌∙◌, true, false, some, List, [], ◌∷◌, ◌++◌, arith, ◌==◌,
  ==_refl, ge→ltb, lt→leb, add_size, sub_size, add32, length, length-append, set,
}
use native.Mathlib.Nat.{mod-eq_of_lt}
use universal_multi_segmente.Standalone.{
  ErrorCode, success, header_size, magic_number, MessageHeader, Segment, Buffer,
}
use universal_multi_segmente.Standalone.Bytes.{load, encode, decode, calculate_checksum}
use universal_multi_segmente.Standalone.Messages.{
  Output, stride, message_header, fill_segment, append_message, is_full, count_read, read_checked,
  read_header, read_segment,
}
use universal_multi_segmente.Standalone.Stored.{
  IsMessage, stride_bounds, Stored, Stored-le, Stored-length, Stored-snoc, Stored-store,
  IsStored-filled,
}

positive-ne_zero : (n : ℕ) → 0 < n → (n == 0) ≡ false
positive-ne_zero n h = ground arith

-- The segment holds the messages `ms`, the oldest first, and has not wrapped around.
pub record IsQueue (s : Segment) (ms : List (List ℕ)) : Type 0 where
  pub stored : Stored s.bytes s.read_pos ms s.write_pos
  pub counted : s.message_count ≡ length ms
  pub within : s.write_pos ≤ s.size
  pub small : s.size < 2 ^ 31
  pub active : s.active ≡ true

module _ {s : Segment} {ms : List (List ℕ)} (m : List ℕ) (q : IsQueue s ms) (v : IsMessage m)
    (fits : s.write_pos + stride (length m) ≤ s.size) where
  pub is_full-IsQueue : is_full s (stride (length m)) ≡ false
  unfolding is_full
  is_full-IsQueue =
      ge→ltb _ _ (
        omega
          (arith, q.within, q.small, fits, Stored-le s.bytes s.read_pos ms s.write_pos q.stored))

  offset_lem : s.write_pos % s.size ≡ s.write_pos
  offset_lem = mod-eq_of_lt (omega (arith, fits, stride_bounds (length m) v.short))

  append_fits :
      (header : MessageHeader)
      → append_message s header m ≡ fill_segment s s.write_pos s.write_pos header m
  unfolding append_message
  append_fits header = rw (
    offset_lem,
    ge→ltb s.size (add32 s.write_pos (stride (length m))) (omega (arith, fits, q.small)),
  )

  -- A message with room behind the write position is added at the end of the queue.
  pub append_message-IsQueue :
      (sequence timestamp : ℕ)
      → sequence < 2 ^ 64
      → timestamp < 2 ^ 64
      → IsQueue (append_message s (message_header sequence timestamp m) m) (ms ++ m ∷ [])
  unfolding fill_segment
  append_message-IsQueue sequence timestamp k t =
      let bound = stride_bounds (length m) v.short in
      let header = message_header sequence timestamp m in
      let position : add_size s.write_pos (stride (length m)) ≡ s.write_pos + stride (length m) =
        omega (arith, fits, q.small) in
      rw (append_fits header) (record {
        stored = rw position (
            Stored-snoc _ s.read_pos ms s.write_pos m
              (Stored-store _ s.read_pos ms s.write_pos (s.write_pos + header_size) m
                (Stored-store s.bytes s.read_pos ms s.write_pos s.write_pos (encode header) q.stored
                  (omega arith))
                (omega arith))
              (IsStored-filled s.bytes s.write_pos sequence timestamp m k t v));
        counted = omega (
          arith,
          q.counted,
          length-append ms (m ∷ []),
          q.within,
          q.small,
          Stored-length s.bytes s.read_pos ms s.write_pos q.stored,
        );
        within = omega (arith, fits, q.small);
        small = q.small;
        active = q.active;
      })

-- The segment once its first message, of `size` bytes, was read.
abbrev pub advanced : Segment → ℕ → Segment
advanced s size = record s {
  read_pos = add_size s.read_pos (stride size);
  message_count = sub_size s.message_count 1;
}

-- What a read comes to when the message is whole: the message's bytes and size, and the buffer with
-- the segment moved on.
abbrev pub read_result : Buffer → ℕ → ℕ → Segment → List ℕ → ErrorCode × Output × Buffer × ℕ
read_result b counter i s m = (
  success,
  record { copied = m; actual_size = some (length m) },
  count_read (record b { segments = set b.segments i (advanced s (length m)) }) (length m)
      (add_size counter 1),
  add_size counter 1,
)

read_segment-filled :
    (b : Buffer) (counter i : ℕ) (s : Segment) (buffer_size : ℕ)
    → 0 < s.message_count
    → s.read_pos < s.write_pos
    → read_segment b counter i s buffer_size
      ≡ read_header b counter i s
          (decode (load s.bytes (s.read_pos % s.size) header_size))
          buffer_size
unfolding read_segment
read_segment-filled b counter i s buffer_size h k =
    rw (positive-ne_zero s.message_count h, lt→leb s.write_pos s.read_pos k)

read_header-whole :
    (b : Buffer) (counter i : ℕ) (s : Segment) (header : MessageHeader) (buffer_size : ℕ)
    (m : List ℕ)
    → header.magic ≡ magic_number
    → header.size ≡ length m
    → header.checksum ≡ calculate_checksum m
    → load s.bytes (s.read_pos % s.size + header_size) header.size ≡ m
    → length m ≤ buffer_size
    → read_header b counter i s header buffer_size ≡ read_result b counter i s m
unfolding read_header read_checked
read_header-whole b counter i s header buffer_size m g z c l h =
    rw (l, c, g, z, ge→ltb buffer_size (length m) h, ==_refl (calculate_checksum m))

module _ {s : Segment} {m : List ℕ} {ms : List (List ℕ)} (q : IsQueue s (m ∷ ms)) where
  pub advanced-IsQueue : IsQueue (advanced s (length m)) ms
  advanced-IsQueue =
      let behind = Stored-le s.bytes (s.read_pos + stride (length m)) ms s.write_pos q.stored.1 in
      let position : add_size s.read_pos (stride (length m)) ≡ s.read_pos + stride (length m) =
        omega (arith, behind, q.within, q.small) in
      let long = Stored-length s.bytes s.read_pos (m ∷ ms) s.write_pos q.stored in
      record {
        stored = rw position q.stored.1;
        counted = omega (arith, q.counted, long, q.within, q.small);
        within = q.within;
        small = q.small;
        active = q.active;
      }

  read_offset : s.read_pos % s.size ≡ s.read_pos
  read_offset =
      mod-eq_of_lt
        (omega (arith, q.within, Stored-length s.bytes s.read_pos (m ∷ ms) s.write_pos q.stored))

  -- A read gives the first message of the queue.
  pub read_segment-IsQueue :
      (b : Buffer) (counter i buffer_size : ℕ)
      → length m ≤ buffer_size
      → read_segment b counter i s buffer_size ≡ read_result b counter i s m
  read_segment-IsQueue b counter i buffer_size h =
      read_segment-filled b counter i s buffer_size (omega (arith, q.counted))
        (omega (arith, Stored-length s.bytes s.read_pos (m ∷ ms) s.write_pos q.stored))
      ∙ rw read_offset (
          read_header-whole b counter i s (decode (load s.bytes s.read_pos header_size)) buffer_size
            m q.stored.0.magic q.stored.0.size q.stored.0.checksum
            (ap₂ (λ o n. load s.bytes (o + header_size) n) read_offset q.stored.0.size
              ∙ q.stored.0.payload)
            h)
