-- ===== src/Handshake/Duplicates.antt =====
-- What src/feedback_handshake.c does with a second acknowledgement of a message.
use universal_multi_segmente.Prelude.{
  ℕ, ◌%◌, ◌<◌, ◌≡◌, refl, true, some, sub32, add_size, length, get_elem?, get_elem?-set_self, set,
}
use universal_multi_segmente.Handshake.{
  acked, ack, HandshakeEntry, HandshakeManager, FeedbackMessage, answer, is_addressed,
  process_entry, process_feedback,
}

-- An acknowledgement that is addressed to an entry closes it, whatever its state.
abbrev closed : HandshakeManager → ℕ → ℕ → HandshakeEntry → HandshakeManager
closed m now i e = record m {
  entries = set m.entries i (record e { state = acked; ack_timestamp_us = now });
  successful_acks = add_size m.successful_acks 1;
  pending_count = sub32 m.pending_count 1;
}

process_feedback-ack :
    (m : HandshakeManager) (now : ℕ) (f : FeedbackMessage) (e : HandshakeEntry)
    → get_elem? m.entries (f.sequence % m.capacity) ≡ some e
    → is_addressed e f ≡ true
    → f.type ≡ ack
    → process_feedback m now f ≡ (true, closed m now (f.sequence % m.capacity) e)
unfolding process_feedback process_entry answer
process_feedback-ack m now f e g a t = rw g (rw a (rw t refl))

-- A second acknowledgement of the same message is taken like the first: two of them, in a row, take
-- one message off the pending ones twice.
pub duplicate_ack :
    (m : HandshakeManager) (now later : ℕ) (f : FeedbackMessage) (e : HandshakeEntry)
    → f.sequence % m.capacity < length m.entries
    → get_elem? m.entries (f.sequence % m.capacity) ≡ some e
    → is_addressed e f ≡ true
    → f.type ≡ ack
    → let (known, n) = process_feedback m now f in
      let (known', o) = process_feedback n later f in
      (known ≡ true)
      × (known' ≡ true)
      × (o.pending_count ≡ sub32 (sub32 m.pending_count 1) 1)
      × (o.successful_acks ≡ add_size (add_size m.successful_acks 1) 1)
duplicate_ack m now later f e h g a t =
    let n = closed m now (f.sequence % m.capacity) e in
    let again = get_elem?-set_self m.entries (f.sequence % m.capacity) _ h in
    rw (process_feedback-ack m now f e g a t) (
      rw
        (process_feedback-ack n later f (record e { state = acked; ack_timestamp_us = now }) again a
          t)
        (refl, refl, refl, refl))
