-- ===== src/Handshake/Kept.antt =====
-- The calls of src/feedback_handshake.c other than a send keep the count of pending messages in step
-- with the entries.
use universal_multi_segmente.Prelude.{
  ℕ, zero, suc, ◌+◌, ◌%◌, ◌≤◌, ◌<◌, ◌≡◌, refl, ◌∙◌, inl, inr, Bool, true, ◌&&◌, Option, none, some,
  arith, leb, Bool-cases, mul32, add_size, get_elem?,
}
use native.Mathlib.Nat.{mod-eq_of_lt}
use universal_multi_segmente.Handshake.{
  HandshakeState, pending, acked, nacked, timeout, retry, HandshakeEntry, HandshakeManager,
  FeedbackMessage, is_addressed, process_entry, process_feedback, is_pending, is_retry, is_overdue,
  expire, timeouts_from, retry_entry, wants_retry, reset, retry_from,
}
use universal_multi_segmente.Handshake.Balance.{
  weight, IsBalanced, IsKept, with_entry-IsKept, retried_if-IsKept, answer-IsKept,
}

IsKept-refl : {m : HandshakeManager} → IsBalanced m → IsKept m m
IsKept-refl b = record { balanced = b; head_same = refl }

IsKept-trans : {m n o : HandshakeManager} → IsKept m n → IsKept n o → IsKept m o
IsKept-trans a b = record { balanced = b.balanced; head_same = b.head_same ∙ a.head_same }

overdue_weight : (now : ℕ) (e : HandshakeEntry) → is_overdue now e ≡ true → weight e.state ≡ 1
overdue_weight now e h = pending_weight e.state _ h
  where
    pending_weight : (s : HandshakeState) (b : Bool) → (is_pending s && b) ≡ true → weight s ≡ 1
    pending_weight pending b k = refl
    pending_weight acked b k = cc
    pending_weight nacked b k = cc
    pending_weight timeout b k = cc
    pending_weight retry b k = refl

expire-IsKept :
    (now : ℕ) (m : HandshakeManager) (i : ℕ) (o : Option HandshakeEntry)
    → IsBalanced m
    → i < m.head
    → get_elem? m.entries i ≡ o
    → IsKept m (expire now m i o)
unfolding expire
expire-IsKept now m i none b l g = IsKept-refl b
expire-IsKept now m i (some e) b l g = elim (Bool-cases (is_overdue now e)) [
  | inr h ↦ rw h (IsKept-refl b)
  | inl h ↦
      let m' = record m { timeouts = add_size m.timeouts 1 } in
      let b' : IsBalanced m' = record { balance = b.balance; room = b.room; narrow = b.narrow } in
      let k =
        retried_if-IsKept b' i e e l g (overdue_weight now e h) m.zero_loss_mode
          (mul32 e.timeout_ms 2) timeout refl in
      rw h (record { balanced = k.balanced; head_same = k.head_same })
]

pub timeouts_from-IsKept :
    (now : ℕ) (m : HandshakeManager) (n i : ℕ)
    → IsBalanced m
    → i + n ≤ m.head
    → IsKept m (timeouts_from now m n i)
unfolding timeouts_from
timeouts_from-IsKept now m zero i b l = IsKept-refl b
timeouts_from-IsKept now m (suc n) i b l =
    let index : i % m.capacity ≡ i = mod-eq_of_lt (omega (arith, b.room, l)) in
    let m' = expire now m i (get_elem? m.entries i) in
    let k = expire-IsKept now m i (get_elem? m.entries i) b (omega arith) refl in
    rw index (
      IsKept-trans k
        (timeouts_from-IsKept now m' n (i + 1) k.balanced (omega (arith, k.head_same, l))))

reset-IsKept :
    (now : ℕ) (m : HandshakeManager) (i : ℕ) (o : Option HandshakeEntry)
    → IsBalanced m
    → i < m.head
    → get_elem? m.entries i ≡ o
    → wants_retry o ≡ true
    → IsKept m (reset now m i o)
unfolding reset
reset-IsKept now m i none b l g w = IsKept-refl b
reset-IsKept now m i (some e) b l g w =
    with_entry-IsKept b i e (retry_entry now e) l g (retry_weight e.state w) refl
  where
    retry_weight : (s : HandshakeState) → is_retry s ≡ true → weight s ≡ 1
    retry_weight retry k = refl
    retry_weight pending k = refl
    retry_weight acked k = cc
    retry_weight nacked k = cc
    retry_weight timeout k = cc

pub retry_from-IsKept :
    (now : ℕ) (m : HandshakeManager) (n i processed : ℕ)
    → IsBalanced m
    → i + n ≤ m.head
    → IsKept m (retry_from now m n i processed).1
unfolding retry_from
retry_from-IsKept now m zero i processed b l = IsKept-refl b
retry_from-IsKept now m (suc n) i processed b l =
    let index : i % m.capacity ≡ i = mod-eq_of_lt (omega (arith, b.room, l)) in
    let o = get_elem? m.entries i in
    let m' = reset now m i o in
    rw index (elim (Bool-cases (wants_retry o)) [
      | inr a ↦ rw a (retry_from-IsKept now m n (i + 1) processed b (omega arith))
      | inl a ↦
          let k = reset-IsKept now m i o b (omega arith) refl a in
          elim (Bool-cases (leb 10 (processed + 1))) [
            | inl s ↦ rw a (rw s k)
            | inr s ↦ rw a (
                rw s (
                  IsKept-trans k (
                    retry_from-IsKept now m' n (i + 1) (processed + 1) k.balanced
                      (omega (arith, k.head_same, l)))))
          ]
    ])

-- Feedback that answers a message which still waits.
pub record IsAwaited (m : HandshakeManager) (f : FeedbackMessage) : Type 0 where
  pub entry : HandshakeEntry
  pub numbered : f.sequence < m.head
  pub found : get_elem? m.entries f.sequence ≡ some entry
  pub waits : weight entry.state ≡ 1

pub process_feedback-IsKept :
    (m : HandshakeManager) (now : ℕ) (f : FeedbackMessage)
    → IsBalanced m
    → IsAwaited m f
    → IsKept m (process_feedback m now f).1
unfolding process_feedback process_entry
process_feedback-IsKept m now f b a =
    let index : f.sequence % m.capacity ≡ f.sequence =
      mod-eq_of_lt (omega (arith, b.room, a.numbered)) in
    rw index (
      rw a.found (elim (Bool-cases (is_addressed a.entry f)) [
        | inr h ↦ rw h (IsKept-refl b)
        | inl h ↦ rw h (
            answer-IsKept b f.sequence a.entry (record a.entry { ack_timestamp_us = now })
              a.numbered a.found a.waits f.type a.waits)
      ]))
