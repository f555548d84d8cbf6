-- ===== src/Handshake/Calls.antt =====
-- What the calls of src/feedback_handshake.c other than a send leave as it is.
use universal_multi_segmente.Prelude.{
  ℕ, zero, suc, ◌+◌, ◌-◌, ◌%◌, ◌≤◌, ◌≡◌, refl, inl, inr, Option, none, some, leb, Bool-cases, mul32,
  add_size, get_elem?, All-get,
}
use universal_multi_segmente.Handshake.{
  timeout, HandshakeEntry, HandshakeManager, FeedbackMessage, is_addressed, process_entry,
  process_feedback, is_overdue, expire, timeouts_from, process_timeouts, retry_entry, wants_retry,
  reset, retry_from, retry_failed_messages,
}
use universal_multi_segmente.Handshake.Adjusted.{
  IsAdjusted, IsAdjusted-refl, IsAdjusted-trans, Within, with_entry-IsAdjusted,
  retried_if-IsAdjusted, answer-IsAdjusted,
}

-- An entry that is found is within the limit.
found-Within :
    (m : HandshakeManager) (i : ℕ) (e : HandshakeEntry)
    → get_elem? m.entries i ≡ some e
    → Within m e
found-Within m i e g b = All-get (λ x. x.retry_count ≤ m.max_retries) m.entries i e b g

process_entry-IsAdjusted :
    (m : HandshakeManager) (now i : ℕ) (f : FeedbackMessage) (o : Option HandshakeEntry)
    → get_elem? m.entries i ≡ o
    → IsAdjusted m (process_entry m now i f o).1
unfolding process_entry
process_entry-IsAdjusted m now i f none g = IsAdjusted-refl m
process_entry-IsAdjusted m now i f (some e) g = elim (Bool-cases (is_addressed e f)) [
  | inl a ↦
      rw a
        (answer-IsAdjusted m i (record e { ack_timestamp_us = now }) f.type (found-Within m i e g))
  | inr a ↦ rw a (IsAdjusted-refl m)
]

pub process_feedback-IsAdjusted :
    (m : HandshakeManager) (now : ℕ) (f : FeedbackMessage)
    → IsAdjusted m (process_feedback m now f).1
unfolding process_feedback
process_feedback-IsAdjusted m now f =
    let i = f.sequence % m.capacity in
    process_entry-IsAdjusted m now i f (get_elem? m.entries i) refl

pub expire-IsAdjusted :
    (now : ℕ) (m : HandshakeManager) (i : ℕ) (o : Option HandshakeEntry)
    → get_elem? m.entries i ≡ o
    → IsAdjusted m (expire now m i o)
unfolding expire
expire-IsAdjusted now m i none g = IsAdjusted-refl m
expire-IsAdjusted now m i (some e) g =
    let m' = record m { timeouts = add_size m.timeouts 1 } in
    let same : IsAdjusted m m' = record {
      length_same = refl;
      capacity_same = refl;
      head_same = refl;
      tail_same = refl;
      limit_same = refl;
      bounded = λ f b. b;
    } in
    elim (Bool-cases (is_overdue now e)) [
      | inl a ↦ rw a (
          IsAdjusted-trans same (
            retried_if-IsAdjusted m' i e m.zero_loss_mode (mul32 e.timeout_ms 2) timeout
              (found-Within m i e g)))
      | inr a ↦ rw a (IsAdjusted-refl m)
    ]

timeouts_from-IsAdjusted :
    (now : ℕ) (m : HandshakeManager) (n i : ℕ) → IsAdjusted m (timeouts_from now m n i)
unfolding timeouts_from
timeouts_from-IsAdjusted now m zero i = IsAdjusted-refl m
timeouts_from-IsAdjusted now m (suc n) i =
    let index = i % m.capacity in
    let m' = expire now m index (get_elem? m.entries index) in
    IsAdjusted-trans (expire-IsAdjusted now m index (get_elem? m.entries index) refl)
      (timeouts_from-IsAdjusted now m' n (i + 1))

pub process_timeouts-IsAdjusted :
    (m : HandshakeManager) (now : ℕ) → IsAdjusted m (process_timeouts m now)
unfolding process_timeouts
process_timeouts-IsAdjusted m now = timeouts_from-IsAdjusted now m (m.head - m.tail) m.tail

reset-IsAdjusted :
    (now : ℕ) (m : HandshakeManager) (i : ℕ) (o : Option HandshakeEntry)
    → get_elem? m.entries i ≡ o
    → IsAdjusted m (reset now m i o)
unfolding reset
reset-IsAdjusted now m i none g = IsAdjusted-refl m
reset-IsAdjusted now m i (some e) g =
    with_entry-IsAdjusted m i (retry_entry now e) (found-Within m i e g)

retry_from-IsAdjusted :
    (now : ℕ) (m : HandshakeManager) (n i processed : ℕ)
    → IsAdjusted m (retry_from now m n i processed).1
unfolding retry_from
retry_from-IsAdjusted now m zero i processed = IsAdjusted-refl m
retry_from-IsAdjusted now m (suc n) i processed =
    let index = i % m.capacity in
    let o = get_elem? m.entries index in
    let m' = reset now m index o in
    let once = reset-IsAdjusted now m index o refl in
    elim (Bool-cases (wants_retry o)) [
      | inr a ↦ rw a (retry_from-IsAdjusted now m n (i + 1) processed)
      | inl a ↦ elim (Bool-cases (leb 10 (processed + 1))) [
        | inl s ↦ rw a (rw s once)
        | inr s ↦
            rw a (
              rw s (IsAdjusted-trans once (retry_from-IsAdjusted now m' n (i + 1) (processed + 1))))
      ]
    ]

pub retry_failed_messages-IsAdjusted :
    (m : HandshakeManager) (now : ℕ) → IsAdjusted m (retry_failed_messages m now).1
unfolding retry_failed_messages
retry_failed_messages-IsAdjusted m now = retry_from-IsAdjusted now m (m.head - m.tail) m.tail 0
