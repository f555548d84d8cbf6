-- ===== src/TwinLane/Slots.antt =====
-- The slot that a message of src/twin_lane.c is written to.
use universal_multi_segmente.Prelude.{
  ℕ, ◌+◌, ◌*◌, ◌/◌, ◌%◌, ◌^◌, ◌≤◌, ◌<◌, ◌≡◌, refl, ap, ◌∙◌, inl, Bool, true, false, ◌||◌, none,
  some, List, arith, leb, if◌then◌else◌, ◌==◌, ge→ltb, add_size, length,
}
use native.Mathlib.Nat.{
  mod-lt, suc-mul, mod-eq_of_lt, mul-le-mul_right, div-eq-sub-div, div-eq_of_lt, div-mul-le_self,
}
use universal_multi_segmente.Standalone.Bytes.{
  store, load, to_bytes, from_bytes, load-store_self, load-store_apart, from_bytes-to_bytes,
}
use universal_multi_segmente.TwinLane.{held, TwinLane, TwinManager, lane_at, put_lane}
use universal_multi_segmente.TwinLane.Sending.{
  slot_size, write_slot, count_sent, send_to, send_slot, twin_lane_send,
}

==_positive : (n : ℕ) → 0 < n → (n == 0) ≡ false
==_positive n h = ground arith

slot_bound : (h c s : ℕ) → 0 < c / s → h % (c / s) * s + s ≤ c
slot_bound h c s p =
    let q = mod-lt h p in
    omega (arith, mul-le-mul_right s q, suc-mul (h % (c / s)) s, div-mul-le_self c s)

slots_positive : (c s : ℕ) → 0 < s → s ≤ c → 0 < c / s
slots_positive c s p h = omega (arith, div-eq-sub-div p h)

module _ (d : ℕ → ℕ) (at sequence : ℕ) (message : List ℕ) where
  abbrev header : ℕ → ℕ
  header = store (store d at (to_bytes 8 sequence)) (at + 8) (to_bytes 4 (length message))

  write_slot-sequence : load (write_slot d at sequence message) at 8 ≡ to_bytes 8 sequence
  unfolding write_slot to_bytes
  write_slot-sequence =
      load-store_apart header (at + 12) message at 8 (inl (omega arith))
      ∙ load-store_apart (store d at (to_bytes 8 sequence)) (at + 8) (to_bytes 4 (length message))
          at 8 (inl (omega arith))
      ∙ load-store_self d at (to_bytes 8 sequence)

  write_slot-size : load (write_slot d at sequence message) (at + 8) 4 ≡ to_bytes 4 (length message)
  unfolding write_slot to_bytes
  write_slot-size =
      load-store_apart header (at + 12) message (at + 8) 4 (inl (omega arith))
      ∙ load-store_self (store d at (to_bytes 8 sequence)) (at + 8) (to_bytes 4 (length message))

  write_slot-message : load (write_slot d at sequence message) (at + 12) (length message) ≡ message
  unfolding write_slot
  write_slot-message = load-store_self header (at + 12) message

-- The lane after a message was written at offset `at`.
abbrev pub sent_lane : TwinLane → (ℕ → ℕ) → ℕ → ℕ → List ℕ → TwinLane
sent_lane l d at sequence message =
    count_sent (record l { tx_head = add_size l.tx_head 1 }) (write_slot d at sequence message)
      (length message)

guarded :
    (A : Type 0) (t u : Bool) (a b c : A)
    → t ≡ false
    → u ≡ false
    → (if t then a else if u then b else c) ≡ c
guarded A t u a b c e f = rw (e, f) refl

-- With a ring that has room for the message, it is written within the ring.
send_slot-held :
    (m : TwinManager) (id : ℕ) (l : TwinLane) (sequence : ℕ) (message : List ℕ) (d : ℕ → ℕ)
    → l.tx_ring ≡ held d
    → 12 + length message ≤ l.tx_capacity
    → l.tx_capacity < 2 ^ 63
    → let size = slot_size (length message) in
      let at = l.tx_head % (l.tx_capacity / size) * size in
      (at + 12 + length message ≤ l.tx_capacity)
      × (send_slot m id l (l.tx_capacity / size) sequence message
          ≡ some (
            true,
            record (put_lane m id (sent_lane l d at sequence message)) {
              global_tx_sequence = sequence;
            },
          ))
unfolding send_slot send_to
send_slot-held m id l sequence message d e fit small =
    let size = slot_size (length message) in
    let slots = l.tx_capacity / size in
    let at = l.tx_head % slots * size in
    let moved = record l { tx_head = add_size l.tx_head 1 } in
    let some_slot = slots_positive l.tx_capacity size (omega arith) (omega arith) in
    let bound = slot_bound l.tx_head l.tx_capacity size some_slot in
    let narrow : at % 2 ^ 64 ≡ at = mod-eq_of_lt (omega (arith, bound)) in
    (
      omega (arith, bound),
      guarded _ (slots == 0) _ _ _ _ (==_positive slots some_slot)
            (ge→ltb l.tx_capacity _ (omega (arith, bound, narrow)))
          ∙ ap (λ a. send_to m id moved l.tx_ring a sequence message) narrow
          ∙ ap (λ r. send_to m id moved r at sequence message) e,
    )

send_slot-short :
    (m : TwinManager) (id : ℕ) (l : TwinLane) (sequence : ℕ) (message : List ℕ)
    → l.tx_capacity < 12 + length message
    → length message < 2 ^ 63
    → send_slot m id l (l.tx_capacity / slot_size (length message)) sequence message ≡ none
unfolding send_slot
send_slot-short m id l sequence message h k =
    let shorter : l.tx_capacity < slot_size (length message) = omega arith in
    let e = div-eq_of_lt shorter in rw e refl

module _ (m : TwinManager) (id : ℕ) (message : List ℕ) (sequence : ℕ) (known : id < m.lane_count)
    (positive : 0 < length message)
    (room : (lane_at m id).tx_inflight < (lane_at m id).tx_window_size)
    (open_lane : 0 < (lane_at m id).tx_capacity) where
  -- What the guards let through.
  send-passes :
      twin_lane_send m id message sequence
      ≡ send_slot m id
          (lane_at m id)
          ((lane_at m id).tx_capacity / slot_size (length message))
          sequence
          message
  unfolding twin_lane_send
  send-passes =
      guarded _ (leb m.lane_count id || length message == 0)
        ((lane_at m id).tx_capacity == 0
          || leb (lane_at m id).tx_window_size (lane_at m id).tx_inflight)
        _ _ _ (ground arith) (ground arith)

-- A message that is sent on an open lane with room in its window and in its ring is accepted, and
-- stands in the ring, within its capacity, behind its sequence number and its size.
pub send_stores :
    (m : TwinManager) (id : ℕ) (message : List ℕ) (sequence : ℕ) (d : ℕ → ℕ)
    → id < m.lane_count
    → 0 < length message
    → (lane_at m id).tx_inflight < (lane_at m id).tx_window_size
    → (lane_at m id).tx_ring ≡ held d
    → 12 + length message ≤ (lane_at m id).tx_capacity
    → (lane_at m id).tx_capacity < 2 ^ 32
    → sequence < 2 ^ 32
    → (at : ℕ) × (d' : ℕ → ℕ) × (l : TwinLane) × (twin_lane_send m id message sequence
        ≡ some (true, record (put_lane m id l) { global_tx_sequence = sequence }))
      × (l.tx_ring ≡ held d')
      × (at + 12 + length message ≤ l.tx_capacity)
      × (from_bytes (load d' at 8) ≡ sequence)
      × (from_bytes (load d' (at + 8) 4) ≡ length message)
      × (load d' (at + 12) (length message) ≡ message)
unfolding count_sent
send_stores m id message sequence d known positive room e fit small narrow =
    let l = lane_at m id in
    let at =
      l.tx_head % (l.tx_capacity / slot_size (length message)) * slot_size (length message) in
    let (bound, done) = send_slot-held m id l sequence message d e fit (omega arith) in
    (
      at,
      write_slot d at sequence message,
      sent_lane l d at sequence message,
      send-passes m id message sequence known positive room (omega arith) ∙ done,
      refl,
      bound,
      ap from_bytes (write_slot-sequence d at sequence message)
          ∙ from_bytes-to_bytes 8 sequence (omega arith),
      ap from_bytes (write_slot-size d at sequence message)
          ∙ from_bytes-to_bytes 4 (length message) (omega arith),
      write_slot-message d at sequence message,
    )

-- A message that is longer than the ring, sent on an open lane with room in its window, makes the
-- code divide by 0.
pub send_divides :
    (m : TwinManager) (id : ℕ) (message : List ℕ) (sequence : ℕ)
    → id < m.lane_count
    → 0 < length message
    → length message < 2 ^ 63
    → (lane_at m id).tx_inflight < (lane_at m id).tx_window_size
    → 0 < (lane_at m id).tx_capacity
    → (lane_at m id).tx_capacity < 12 + length message
    → twin_lane_send m id message sequence ≡ none
send_divides m id message sequence known positive short room open_lane long =
    send-passes m id message sequence known positive room open_lane
    ∙ send_slot-short m id (lane_at m id) sequence message long short
