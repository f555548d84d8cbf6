-- ===== src/Systems/Reliable.antt =====
-- `umsbb_send_reliable` of src/universal_multi_segmented_bi_buffer_bus.c.
use universal_multi_segmente.Prelude.{
  ℕ, ◌%◌, ◌<◌, ◌≡◌, refl, ◌≢◌, ◌⊎◌, inl, inr, false, List, arith, ltb, ◌==◌, ==_iff, Bool-cases,
  add_size, add32, length,
}
use universal_multi_segmente.Handshake.{send_message}
use universal_multi_segmente.FaultTolerance.{overflow, report_fault}
use universal_multi_segmente.Systems.{Systems, send_answered, send_reliable}

-- A reliable send of a message of at least one byte, with room in the handshake, leaves the message
-- there and gives the head of the handshake as its number. Where that is above 0, one operation is
-- counted; where it is 0, as on a new bus, the send is reported as a fault of the producer, and no
-- operation is counted.
pub send_reliable-queues :
    (y : Systems) (now producer consumer : ℕ) (bytes : List ℕ)
    → length bytes ≢ 0
    → add32 y.handshake.head 1 % y.handshake.capacity ≢ y.handshake.tail
    → let (sequence, y') = send_reliable y now producer consumer bytes in
      (sequence ≡ y.handshake.head)
      × (y'.handshake ≡ (send_message y.handshake now producer consumer bytes).1)
      × (y'.handshake.pending_count ≡ add32 y.handshake.pending_count 1)
      × (((0 < y.handshake.head)
            × (y'.fault_tolerance ≡ y.fault_tolerance)
            × (y'.total_operations ≡ add_size y.total_operations 1))
          ⊎ ((y.handshake.head ≡ 0)
              × (y'.fault_tolerance ≡ (report_fault y.fault_tolerance now now overflow producer).1)
              × (y'.total_operations ≡ y.total_operations)))
unfolding send_reliable send_answered send_message
send_reliable-queues y now producer consumer bytes ne room =
    let e : (length bytes == 0) ≡ false = differ ne in
    let f : (add32 y.handshake.head 1 % y.handshake.capacity == y.handshake.tail) ≡ false =
      differ room in
    elim (Bool-cases (ltb 0 y.handshake.head)) [
      | inl g ↦
          let above : 0 < y.handshake.head = ground arith in
          rw (e, f, g) (refl, refl, refl, inl (above, refl, refl))
      | inr g ↦
          let zero_head : y.handshake.head ≡ 0 = ground arith in
          rw (e, f, g) (refl, refl, refl, inr (zero_head, refl, refl))
    ]
  where
    differ : {a b : ℕ} → a ≢ b → (a == b) ≡ false
    differ {a} {b} h = elim (Bool-cases (a == b)) [
      | inl e ↦ absurd (h ((==_iff a b).0 e))
      | inr e ↦ e
    ]
