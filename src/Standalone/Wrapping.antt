-- ===== src/Standalone/Wrapping.antt =====
-- The wrap-around of `umsbb_write_message` in src/umsbb_complete_core.c, lines 389 to 394.
use universal_multi_segmente.Prelude.{
  ℕ, ◌+◌, ◌%◌, ◌^◌, ◌≤◌, ◌<◌, ◌≡◌, ◌≢◌, refl, ◌∙◌, inr, true, false, List, arith, ◌==◌, lt→ltb,
  ge→ltb, lt→leb, add_size, add32, length,
}
use universal_multi_segmente.Standalone.{
  corrupted_data, header_size, magic_number, MessageHeader, Segment, Buffer,
}
use universal_multi_segmente.Standalone.Bytes.{
  store, load, encode, decode, load-store_apart, length-encode,
}
use universal_multi_segmente.Standalone.Messages.{
  no_output, stride, fill_segment, append_message, is_full, fail_read, read_header, read_segment,
}
use universal_multi_segmente.Standalone.Stored.{IsMessage, stride_bounds}

-- Everything in the segment was read, `m` does not fit behind the write position but fits before it,
-- and what stands behind the write position does not start like a message.
pub record IsWrapping (s : Segment) (m : List ℕ) : Type 0 where
  pub message : IsMessage m
  pub drained : s.read_pos ≡ s.write_pos
  pub count : s.message_count ≡ 0
  pub size_fits : s.size < 2 ^ 31
  pub position_fits : s.write_pos < 2 ^ 63
  pub no_room : s.size < s.write_pos % s.size + stride (length m)
  pub before : stride (length m) ≤ s.write_pos % s.size
  pub offset : s.write_pos % s.size < s.size
  pub stale : (decode (load s.bytes (s.write_pos % s.size) header_size)).magic ≢ magic_number

==_ne : (a b : ℕ) → a ≢ b → (a == b) ≡ false
==_ne a b h = ground arith

-- The segment with the message at its start.
abbrev wrapped : Segment → MessageHeader → List ℕ → Segment
wrapped s header m = fill_segment s 0 (add_size s.read_pos s.size) header m

module _ {s : Segment} {m : List ℕ} (w : IsWrapping s m) (header : MessageHeader) where
  append_wrapped : append_message s header m ≡ wrapped s header m
  unfolding append_message
  append_wrapped =
      rw
        (lt→ltb s.size (add32 (s.write_pos % s.size) (stride (length m)))
          (omega (arith, w.no_room, w.before, w.offset, w.size_fits)))
        refl

  -- The write does not touch what stands at the read position.
  untouched :
      load (wrapped s header m).bytes (s.write_pos % s.size) header_size
      ≡ load s.bytes (s.write_pos % s.size) header_size
  unfolding fill_segment
  untouched =
      load-store_apart (store s.bytes 0 (encode header)) header_size m (s.write_pos % s.size)
        header_size (inr (omega (arith, stride_bounds (length m) w.message.short, w.before)))
      ∙ load-store_apart s.bytes 0 (encode header) (s.write_pos % s.size) header_size (
          inr (
            omega
              (arith, length-encode header, stride_bounds (length m) w.message.short, w.before)))

  read_wrapped :
      (b : Buffer) (counter i buffer_size : ℕ)
      → read_segment b counter i (wrapped s header m) buffer_size
        ≡ (corrupted_data, no_output, fail_read b, counter)
  unfolding read_segment read_header fill_segment
  read_wrapped b counter i buffer_size =
      let one : add_size s.message_count 1 ≡ 1 = omega (arith, w.count) in
      rw
        (
          one,
          w.drained,
          lt→leb (add_size (add_size s.write_pos s.size) (stride (length m))) s.write_pos (
              omega (
                arith,
                w.position_fits,
                w.size_fits,
                stride_bounds (length m) w.message.short,
                w.message.short,
              )),
        )
        (rw untouched (rw (==_ne _ magic_number w.stale)))

  is_full-wrapped : (n : ℕ) → n < 2 ^ 31 → is_full (wrapped s header m) n ≡ true
  unfolding is_full fill_segment
  is_full-wrapped n h = lt→ltb _ _ (
      omega (
        arith,
        w.drained,
        w.position_fits,
        w.size_fits,
        stride_bounds (length m) w.message.short,
        w.message.short,
      ))

-- When everything in a segment was read and the next message has to wrap around, the write is
-- accepted, but the reader goes on behind the old write position: unless something there happens to
-- start with the magic number, every read of the segment fails with corrupted data and leaves it as
-- it is, and no further write to it finds room.
pub wrap_strands :
    (s : Segment) (m : List ℕ) (header : MessageHeader)
    → IsWrapping s m
    → let s' = append_message s header m in
      (is_full s (stride (length m)) ≡ false)
      × ((b : Buffer) (counter i buffer_size : ℕ)
          → read_segment b counter i s' buffer_size
            ≡ (corrupted_data, no_output, fail_read b, counter))
      × ((n : ℕ) → n < 2 ^ 31 → is_full s' n ≡ true)
unfolding is_full
wrap_strands s m header w = rw (append_wrapped w header) (
  ge→ltb _ _ (omega (arith, w.drained, w.position_fits, w.size_fits, w.before, w.offset)),
  read_wrapped w header,
  unfold is_full in is_full-wrapped w header,
)
