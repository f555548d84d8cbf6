-- ===== src/TwinLane/Sending.antt =====
-- `twin_lane_send`, `twin_lane_can_send` and `twin_lane_update_flow_control` of src/twin_lane.c. The
-- bytes at `data` and their number come as one list; a null pointer, which is answered as a size of 0
-- is, comes as the empty list.
use universal_multi_segmente.Prelude.{
  ℕ, ◌+◌, ◌*◌, ◌/◌, ◌%◌, ◌^◌, Bool, true, false, ◌&&◌, ◌||◌, Option, none, some, List, ltb, leb,
  ◌==◌, if◌then◌else◌, add_size, sub_size, add32, sub32, length,
}
use universal_multi_segmente.Standalone.Bytes.{store, to_bytes}
use universal_multi_segmente.TwinLane.{
  Ring, null, freed, held, TwinLane, TwinManager, lane_at, put_lane,
}

-- The bytes that a message takes in a ring: a sequence number of 8 bytes, a size of 4 and the data.
abbrev pub slot_size : ℕ → ℕ
slot_size size = add_size (add_size size 8) 4

-- The three writes at the slot's address.
unfoldable pub write_slot : (ℕ → ℕ) → ℕ → ℕ → List ℕ → ℕ → ℕ
write_slot d at sequence message =
    store (store (store d at (to_bytes 8 sequence)) (at + 8) (to_bytes 4 (length message)))
      (at + 12) message

unfoldable pub count_sent : TwinLane → (ℕ → ℕ) → ℕ → TwinLane
count_sent l d size = record l {
  tx_ring = held d;
  tx_messages = add_size l.tx_messages 1;
  tx_bytes = add_size l.tx_bytes size;
  tx_inflight = add32 l.tx_inflight 1;
}

-- The write to the ring, and what follows it. A pointer that is null or freed cannot be written to.
unfoldable pub send_to :
    TwinManager → ℕ → TwinLane → Ring → ℕ → ℕ → List ℕ → Option (Bool × TwinManager)
send_to m id l null at sequence message = none
send_to m id l freed at sequence message = none
send_to m id l (held d) at sequence message = some (
  true,
  record (put_lane m id (count_sent l (write_slot d at sequence message) (length message))) {
    global_tx_sequence = sequence;
  },
)

-- `twin_lane_send` with the number of slots, by which it divides.
unfoldable pub send_slot : TwinManager → ℕ → TwinLane → ℕ → ℕ → List ℕ → Option (Bool × TwinManager)
send_slot m id l slots sequence message =
    if slots == 0
    then none
    else (let moved = record l { tx_head = add_size l.tx_head 1 } in
        let size = slot_size (length message) in
        let at = (l.tx_head % slots * size) % 2 ^ 64 in
        if ltb l.tx_capacity (add_size (add_size (add_size at (length message)) 8) 4)
        then some (false, put_lane m id moved)
        else send_to m id moved moved.tx_ring at sequence message)

unfoldable pub twin_lane_send : TwinManager → ℕ → List ℕ → ℕ → Option (Bool × TwinManager)
twin_lane_send m id message sequence =
    if leb m.lane_count id || length message == 0
    then some (false, m)
    else (let l = lane_at m id in
        if l.tx_capacity == 0 || leb l.tx_window_size l.tx_inflight
        then some (false, m)
        else send_slot m id l (l.tx_capacity / slot_size (length message)) sequence message)

unfoldable pub twin_lane_can_send : TwinManager → ℕ → Bool
twin_lane_can_send m id =
    if leb m.lane_count id
    then false
    else (let l = lane_at m id in ltb l.tx_inflight l.tx_window_size)

-- The window after an acknowledgement at `now`, where the one before came at `last`.
unfoldable pub adapted_window : ℕ → ℕ → ℕ → ℕ
adapted_window last now window =
    if ltb 0 last
    then (let interval = sub_size now last in
        if ltb interval 1000 && ltb window 256
        then add32 window 2
        else if ltb 10000 interval && ltb 8 window
        then sub32 window 1
        else window)
    else window

unfoldable pub acknowledged : TwinLane → ℕ → ℕ → ℕ → TwinLane
acknowledged l last now ack_sequence = record l {
  tx_inflight = if ltb 0 l.tx_inflight then sub32 l.tx_inflight 1 else l.tx_inflight;
  tx_window_size = adapted_window last now l.tx_window_size;
  sync_sequence = ack_sequence;
}

-- The static `last_ack_time`, one for all lanes, is an argument and a result.
unfoldable pub twin_lane_update_flow_control : TwinManager → ℕ → ℕ → ℕ → ℕ → TwinManager × ℕ
twin_lane_update_flow_control m last now id ack_sequence =
    if leb m.lane_count id
    then (m, last)
    else (put_lane m id (acknowledged (lane_at m id) last now ack_sequence), now)
