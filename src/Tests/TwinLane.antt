-- ===== src/Tests/TwinLane.antt =====
-- The theorems on the twin lanes at a manager with one lane.
use universal_multi_segmente.Prelude.{
  ℕ, ◌+◌, ◌≤◌, ◌≡◌, refl, true, false, some, none, List, [], ◌∷◌, arith,
}
use universal_multi_segmente.Standalone.Bytes.{load, from_bytes}
use universal_multi_segmente.TwinLane.{
  held, TwinLane, TwinManager, lane_at, put_lane, blank_lane, twin_lane_init, twin_lane_create,
  twin_lane_destroy_lane, allocated_lane, free_ring, destroyed_lane, with_lane, no_lane,
}
use universal_multi_segmente.TwinLane.Sending.{twin_lane_send}
use universal_multi_segmente.TwinLane.Receiving.{Receipt, twin_lane_receive}
use universal_multi_segmente.TwinLane.Slots.{send_stores}
use universal_multi_segmente.TwinLane.Windows.{
  Reach, init, call, create, Reach-bounds, receive_starves,
}

abbrev message : List ℕ
message = 7 ∷ 8 ∷ 9 ∷ []

-- A lane with a ring of `capacity` bytes for sending.
abbrev manager : ℕ → TwinManager
manager capacity = record {
  lanes =
      record blank_lane { tx_ring = held (λ o. 0); tx_capacity = capacity; tx_window_size = 64 }
      ∷ [];
  lane_count = 1;
  max_lanes = 1;
  global_tx_sequence = 0;
  global_rx_sequence = 0;
}

send_stores_example :
    (at : ℕ) × (d' : ℕ → ℕ) × (l : TwinLane) × (twin_lane_send (manager 64) 0 message 5
      ≡ some (true, record (put_lane (manager 64) 0 l) { global_tx_sequence = 5 }))
    × (l.tx_ring ≡ held d')
    × (at + 12 + 3 ≤ l.tx_capacity)
    × (from_bytes (load d' at 8) ≡ 5)
    × (from_bytes (load d' (at + 8) 4) ≡ 3)
    × (load d' (at + 12) 3 ≡ message)
send_stores_example =
    send_stores (manager 64) 0 message 5 (λ o. 0) (omega arith) (omega arith) (omega arith) refl
      (omega arith) (omega arith) (omega arith)

one_lane : Reach (twin_lane_create (twin_lane_init 2) 9 64 64 true true).1
one_lane = call (init 2 (omega arith)) (create 9 64 64 true true)

Reach-bounds_example :
    let m = (twin_lane_create (twin_lane_init 2) 9 64 64 true true).1 in
    ((lane_at m 0).tx_window_size ≤ 257)
    × ((lane_at m 0).tx_inflight ≤ 257)
    × (m.lane_count ≤ m.max_lanes)
Reach-bounds_example = Reach-bounds one_lane 0

receive_starves_example :
    let m = (twin_lane_create (twin_lane_init 2) 9 64 64 true true).1 in
    (r : Receipt) × (twin_lane_receive m 0 true ≡ some (r, m)) × (r.block ≡ none)
receive_starves_example = receive_starves one_lane 0 true

-- The second allocation fails: the caller gets no lane, the lane is counted, its first ring was freed,
-- and the destruction of the lane frees it again.
failed : TwinManager
failed = (twin_lane_create (twin_lane_init 2) 9 64 64 true false).1

failed_lane : (twin_lane_create (twin_lane_init 2) 9 64 64 true false).0 ≡ no_lane
unfolding twin_lane_create twin_lane_init
failed_lane = refl

failed_destroy : twin_lane_destroy_lane failed 0 ≡ none
unfolding failed twin_lane_create twin_lane_init allocated_lane twin_lane_destroy_lane free_ring
    destroyed_lane with_lane
failed_destroy = refl
