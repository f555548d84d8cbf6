-- ===== src/Standalone/Accounting.antt =====
-- The counters of a buffer of src/umsbb_complete_core.c against the messages in its segments.
use universal_multi_segmente.Prelude.{
  ℕ, zero, suc, ◌+◌, ◌%◌, ◌^◌, ◌≡◌, refl, subst, inl, inr, ◌||◌, Option, none, some, List, [], ◌∷◌,
  arith, ltb, leb, ◌==◌, Bool-cases, add_size, sub_size, add32, length, get_elem?, set,
}
use mathlib.Core.Option.{some-injective}
use universal_multi_segmente.Standalone.{magic_number, header_size, MessageHeader, Segment, Buffer}
use universal_multi_segmente.Standalone.Bytes.{load, decode, calculate_checksum}
use universal_multi_segmente.Standalone.Messages.{
  stride, fill_segment, append_message, is_full, count_write, write_segment, write_selected,
  write_buffer, select_write_segment, count_read, read_checked, read_header, read_segment,
  read_selected, read_buffer, select_read_segment,
}

unfoldable pub messages_in : List Segment → ℕ
messages_in [] = 0
messages_in (s ∷ ss) = s.message_count + messages_in ss

-- What was written is what was read and what the segments hold, and the pending messages are what
-- they hold, each in the width of its counter.
pub record IsCounted (b : Buffer) : Type 0 where
  pub balance :
      b.total_messages_written % 2 ^ 64 ≡ (b.total_messages_read + messages_in b.segments) % 2 ^ 64
  pub pending : b.current_pending_messages % 2 ^ 32 ≡ messages_in b.segments % 2 ^ 32

messages_in-set :
    (ss : List Segment) (i : ℕ) (s t : Segment)
    → get_elem? ss i ≡ some s
    → messages_in (set ss i t) + s.message_count ≡ messages_in ss + t.message_count
unfolding messages_in
messages_in-set [] i s t e = cc
messages_in-set (u ∷ ss) zero s t e =
    subst
      (λ x.
        t.message_count + messages_in ss + x.message_count
        ≡ u.message_count + messages_in ss + t.message_count)
      (some-injective u s e) (omega arith)
messages_in-set (u ∷ ss) (suc i) s t e = omega (arith, messages_in-set ss i s t e)

message_count-append :
    (s : Segment) (header : MessageHeader) (m : List ℕ)
    → (append_message s header m).message_count ≡ add_size s.message_count 1
unfolding append_message fill_segment
message_count-append s header m =
    elim (Bool-cases (ltb s.size (add32 (s.write_pos % s.size) (stride (length m))))) [
      | inl e ↦ rw e refl
      | inr e ↦ rw e refl
    ]

module _ {b : Buffer} (c : IsCounted b) (i : ℕ) (s : Segment)
    (e : get_elem? b.segments i ≡ some s) where
  count_write-IsCounted :
      (t : Segment) (size time : ℕ)
      → t.message_count ≡ add_size s.message_count 1
      → IsCounted (count_write (record b { segments = set b.segments i t }) size time)
  unfolding count_write
  count_write-IsCounted t size time h = record {
    balance = omega (arith, c.balance, messages_in-set b.segments i s t e, h);
    pending = omega (arith, c.pending, messages_in-set b.segments i s t e, h);
  }

  count_read-IsCounted :
      (t : Segment) (size time : ℕ)
      → t.message_count ≡ sub_size s.message_count 1
      → IsCounted (count_read (record b { segments = set b.segments i t }) size time)
  unfolding count_read
  count_read-IsCounted t size time h = record {
    balance = omega (arith, c.balance, messages_in-set b.segments i s t e, h);
    pending = omega (arith, c.pending, messages_in-set b.segments i s t e, h);
  }

  write_segment-IsCounted : (counter : ℕ) (m : List ℕ) → IsCounted (write_segment b counter i s m).1
  unfolding write_segment
  write_segment-IsCounted counter m = elim (Bool-cases (is_full s (stride (length m)))) [
    | inl f ↦ rw f (record { balance = c.balance; pending = c.pending })
    | inr f ↦
        rw f (count_write-IsCounted _ (length m) (add_size counter 1) (message_count-append s _ m))
  ]

  read_checked-IsCounted :
      (counter : ℕ) (header : MessageHeader) (m : List ℕ)
      → IsCounted (read_checked b counter i s header m).2
  unfolding read_checked
  read_checked-IsCounted counter header m =
      elim (Bool-cases (calculate_checksum m == header.checksum)) [
        | inl f ↦ rw f (count_read-IsCounted _ header.size (add_size counter 1) refl)
        | inr f ↦ rw f (record { balance = c.balance; pending = c.pending })
      ]

  read_header-IsCounted :
      (counter : ℕ) (header : MessageHeader) (buffer_size : ℕ)
      → IsCounted (read_header b counter i s header buffer_size).2
  unfolding read_header
  read_header-IsCounted counter header buffer_size =
      elim (Bool-cases (header.magic == magic_number)) [
        | inr f ↦ rw f (record { balance = c.balance; pending = c.pending })
        | inl f ↦ elim (Bool-cases (ltb buffer_size header.size)) [
          | inl g ↦ rw f (rw g c)
          | inr g ↦ rw f (
              rw g (
                read_checked-IsCounted counter header
                  (load s.bytes (s.read_pos % s.size + header_size) header.size)))
        ]
      ]

  read_segment-IsCounted :
      (counter buffer_size : ℕ) → IsCounted (read_segment b counter i s buffer_size).2
  unfolding read_segment
  read_segment-IsCounted counter buffer_size =
      elim (Bool-cases (s.message_count == 0 || leb s.write_pos s.read_pos)) [
        | inl f ↦ rw f c
        | inr f ↦ rw f (
            read_header-IsCounted counter (decode (load s.bytes (s.read_pos % s.size) header_size))
              buffer_size)
      ]

module _ {b : Buffer} (c : IsCounted b) where
  write_selected-IsCounted :
      (counter i : ℕ) (m : List ℕ) (o : Option Segment)
      → get_elem? b.segments i ≡ o
      → IsCounted (write_selected b counter i m o).1
  unfolding write_selected
  write_selected-IsCounted counter i m none e = c
  write_selected-IsCounted counter i m (some s) e = write_segment-IsCounted c i s e counter m

  write_buffer-IsCounted : (counter : ℕ) (m : List ℕ) → IsCounted (write_buffer b counter m).1
  unfolding write_buffer
  write_buffer-IsCounted counter m =
      let i = select_write_segment b.segments in
      write_selected-IsCounted counter i m (get_elem? b.segments i) refl

  read_selected-IsCounted :
      (counter i buffer_size : ℕ) (o : Option Segment)
      → get_elem? b.segments i ≡ o
      → IsCounted (read_selected b counter i buffer_size o).2
  unfolding read_selected
  read_selected-IsCounted counter i buffer_size none e = c
  read_selected-IsCounted counter i buffer_size (some s) e =
      read_segment-IsCounted c i s e counter buffer_size

  read_buffer-IsCounted : (counter size : ℕ) → IsCounted (read_buffer b counter size).2
  unfolding read_buffer
  read_buffer-IsCounted counter size =
      let i = select_read_segment b.segments in
      read_selected-IsCounted counter i size (get_elem? b.segments i) refl

-- The calls that clients make on a buffer.
pub data Use : Type 0 where
  write : List ℕ → Use
  read : ℕ → Use

-- The buffer and the clock's counter after the calls.
pub used : Buffer → ℕ → List Use → Buffer
used b counter [] = b
used b counter (write m ∷ us) =
    let (code, b', counter') = write_buffer b counter m in used b' counter' us
used b counter (read size ∷ us) =
    let (code, out, b', counter') = read_buffer b counter size in used b' counter' us

-- Whatever writes and reads a buffer sees, and however each of them ends, its counters of written,
-- read and pending messages go on agreeing with the messages that its segments hold, modulo the
-- widths of the counters.
pub used-IsCounted :
    (b : Buffer) (counter : ℕ) (us : List Use) → IsCounted b → IsCounted (used b counter us)
unfolding used
used-IsCounted b counter [] c = c
used-IsCounted b counter (write m ∷ us) c =
    used-IsCounted (write_buffer b counter m).1 (write_buffer b counter m).2 us
      (write_buffer-IsCounted c counter m)
used-IsCounted b counter (read size ∷ us) c =
    used-IsCounted (read_buffer b counter size).2 (read_buffer b counter size).3 us
      (read_buffer-IsCounted c counter size)
