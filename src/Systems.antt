-- ===== src/Systems.antt =====
-- The calls that version 3 adds to src/universal_multi_segmented_bi_buffer_bus.c: the lanes, the
-- handshake and the fault tolerance behind one bus. Scores, which are doubles, are left out, and the
-- clock reads `now` throughout a call.
pub mod Reliable
use universal_multi_segmente.Prelude.{
  ℕ, ◌%◌, ◌^◌, Bool, true, false, Option, none, some, List, ltb, ◌==◌, if◌then◌else◌, add_size,
  add32, length, get_or, set, ◌∷◌, [],
}
use universal_multi_segmente.FastLane
use universal_multi_segmente.FastLane.{
  FastLane, LaneType, express, bulk, priority, streaming, init_lane,
}
use universal_multi_segmente.TwinLane.{TwinManager, twin_lane_init, twin_lane_create, no_lane}
use universal_multi_segmente.TwinLane.Sending.{twin_lane_send, twin_lane_update_flow_control}
use universal_multi_segmente.TwinLane.Receiving.{Receipt, twin_lane_receive}
use universal_multi_segmente.Handshake.{
  HandshakeManager, FeedbackMessage, FeedbackType, ack, handshake_init, send_message,
  process_feedback, process_timeouts, retry_failed_messages,
}
use universal_multi_segmente.FaultTolerance.{
  FaultManager, FaultType, memory, fault_tolerance_init, report_fault, update_component_health,
  is_component_healthy,
}

-- The fields of the bus that these calls use. `last_ack_time` is the static variable of the twin lanes.
pub record Systems : Type 0 where
  pub fast_lanes : List FastLane
  pub twin_lanes : TwinManager
  pub last_ack_time : ℕ
  pub handshake : HandshakeManager
  pub fault_tolerance : FaultManager
  pub total_operations : ℕ
  pub messages_per_second : ℕ
  pub bytes_per_second : ℕ

-- The part of `umsbb_init` for them, where every allocation succeeds.
unfoldable pub systems_init : Systems
systems_init = record {
  fast_lanes = init_lane express ∷ init_lane bulk ∷ init_lane priority ∷ init_lane streaming ∷ [];
  twin_lanes = twin_lane_init 32;
  last_ack_time = 0;
  handshake = handshake_init 1024;
  fault_tolerance = fault_tolerance_init 512;
  total_operations = 0;
  messages_per_second = 0;
  bytes_per_second = 0;
}

abbrev pub lane_index : LaneType → ℕ
lane_index express = 0
lane_index bulk = 1
lane_index priority = 2
lane_index streaming = 3

abbrev pub fail : Systems → ℕ → FaultType → ℕ → Systems
fail y now type component = record y {
  fault_tolerance = (report_fault y.fault_tolerance now now type component).1;
}

abbrev pub succeed : Systems → ℕ → ℕ → Systems
succeed y now component = record y {
  fault_tolerance = update_component_health y.fault_tolerance component true now;
}

abbrev pub count_bytes : Systems → ℕ → Systems
count_bytes y size = record y {
  total_operations = add_size y.total_operations 1;
  bytes_per_second = add_size y.bytes_per_second size;
}

abbrev pub count_message : Systems → ℕ → Systems
count_message y size = record (count_bytes y size) {
  messages_per_second = add_size y.messages_per_second 1;
}

abbrev pub put_fast_lane : Systems → LaneType → FastLane → Systems
put_fast_lane y t l = record y { fast_lanes = set y.fast_lanes (lane_index t) l }

unfoldable pub fast_submitted : Systems → ℕ → LaneType → ℕ → Bool × FastLane → Bool × Systems
fast_submitted y now t size (true, l) =
    (true, succeed (count_message (put_fast_lane y t l) size) now (lane_index t))
fast_submitted y now t size (false, l) =
    (false, fail (put_fast_lane y t l) now FaultType.overflow (lane_index t))

-- `umsbb_fast_lane_submit`, with the tails that the submission reads while it waits.
unfoldable pub fast_lane_submit : Systems → ℕ → LaneType → List ℕ → List ℕ → Bool × Systems
fast_lane_submit y now t tails bytes =
    fast_submitted y now t (length bytes)
      (FastLane.submit (get_or y.fast_lanes (lane_index t) (init_lane t)) tails bytes)

unfoldable pub fast_drained :
    Systems → ℕ → LaneType → Option (List ℕ) × FastLane → Option (List ℕ) × Systems
fast_drained y now t (none, l) = (none, put_fast_lane y t l)
fast_drained y now t (some bytes, l) =
    (some bytes, succeed (count_message (put_fast_lane y t l) (length bytes)) now (lane_index t))

-- `umsbb_fast_lane_drain`, with whether its `malloc` gives a block.
unfoldable pub fast_lane_drain : Systems → ℕ → LaneType → Bool → Option (List ℕ) × Systems
fast_lane_drain y now t allocated =
    fast_drained y now t
      (FastLane.drain (get_or y.fast_lanes (lane_index t) (init_lane t)) allocated)

-- `umsbb_send_reliable`. The persistence of the message does nothing.
unfoldable pub send_answered : Systems → ℕ → ℕ → ℕ → ℕ × HandshakeManager → ℕ × Systems
send_answered y now producer size (sequence, m) =
    if ltb 0 sequence
    then (sequence, count_bytes (record y { handshake = m }) size)
    else (sequence, fail (record y { handshake = m }) now FaultType.overflow producer)

unfoldable pub send_reliable : Systems → ℕ → ℕ → ℕ → List ℕ → ℕ × Systems
send_reliable y now producer consumer bytes =
    if length bytes == 0
    then (0, y)
    else send_answered y now producer (length bytes)
        (send_message y.handshake now producer consumer bytes)

-- Only an acknowledgement goes on to the twin lanes.
unfoldable pub flow_updated : Systems → ℕ → FeedbackMessage → FeedbackType → Systems
flow_updated y now f ack =
    let (twins, last) =
      twin_lane_update_flow_control y.twin_lanes y.last_ack_time now f.consumer_id
        (f.sequence % 2 ^ 32) in
    record y { twin_lanes = twins; last_ack_time = last }
flow_updated y now f _ = y

unfoldable pub feedback_answered :
    Systems → ℕ → FeedbackMessage → Bool × HandshakeManager → Bool × Systems
feedback_answered y now f (true, m) = (true, flow_updated (record y { handshake = m }) now f f.type)
feedback_answered y now f (false, m) = (false, record y { handshake = m })

-- `umsbb_send_feedback`.
unfoldable pub send_feedback : Systems → ℕ → FeedbackMessage → Bool × Systems
send_feedback y now f = feedback_answered y now f (process_feedback y.handshake now f)

-- `umsbb_process_acknowledgments`.
unfoldable pub process_acknowledgments : Systems → ℕ → Bool × Systems
process_acknowledgments y now =
    let (retried, m) = retry_failed_messages (process_timeouts y.handshake now) now in
    (retried, record y { handshake = m })

-- `umsbb_is_component_healthy`.
unfoldable pub component_healthy : Systems → ℕ → ℕ → Bool × Systems
component_healthy y id now =
    let (healthy, m) = is_component_healthy y.fault_tolerance id now in
    (healthy, record y { fault_tolerance = m })

-- `umsbb_report_fault`.
unfoldable pub fault_reported : Systems → ℕ → FaultType → ℕ → ℕ × Systems
fault_reported y now type component =
    let (id, m) = report_fault y.fault_tolerance now now type component in
    (id, record y { fault_tolerance = m })

-- `umsbb_twin_lane_create`, with whether its two allocations succeed. `n + 1000` is a 32-bit number.
unfoldable pub twin_created : Systems → ℕ → ℕ × TwinManager → ℕ × Systems
twin_created y now (id, m) =
    let z = record y { twin_lanes = m } in
    (id, (if id == no_lane then fail z now memory 0 else succeed z now (add32 id 1000)))

unfoldable pub create_twin_lane : Systems → ℕ → ℕ → ℕ → ℕ → Bool → Bool → ℕ × Systems
create_twin_lane y now peer tx rx tx_given rx_given =
    twin_created y now (twin_lane_create y.twin_lanes peer tx rx tx_given rx_given)

-- `umsbb_twin_lane_send`. Undefined behaviour of the lane is none.
unfoldable pub twin_sent :
    Systems → ℕ → ℕ → ℕ → Option (Bool × TwinManager) → Option (Bool × Systems)
twin_sent y now id size none = none
twin_sent y now id size (some (true, m)) =
    some (true, succeed (count_bytes (record y { twin_lanes = m }) size) now (add32 id 1000))
twin_sent y now id size (some (false, m)) =
    some (false, fail (record y { twin_lanes = m }) now FaultType.overflow (add32 id 1000))

unfoldable pub send_twin_lane : Systems → ℕ → ℕ → List ℕ → ℕ → Option (Bool × Systems)
send_twin_lane y now id bytes sequence =
    twin_sent y now id (length bytes) (twin_lane_send y.twin_lanes id bytes sequence)

unfoldable pub twin_received : Systems → ℕ → ℕ → Receipt → TwinManager → Option (List ℕ) → Systems
twin_received y now id r m none = record y { twin_lanes = m }
twin_received y now id r m (some bytes) =
    succeed (count_bytes (record y { twin_lanes = m }) (length bytes)) now (add32 id 1000)

unfoldable pub twin_answered :
    Systems → ℕ → ℕ → Option (Receipt × TwinManager) → Option (Receipt × Systems)
twin_answered y now id none = none
twin_answered y now id (some (r, m)) = some (r, twin_received y now id r m r.block)

-- `umsbb_twin_lane_receive`, with whether its `malloc` gives a block.
unfoldable pub receive_twin_lane : Systems → ℕ → ℕ → Bool → Option (Receipt × Systems)
receive_twin_lane y now id allocated =
    twin_answered y now id (twin_lane_receive y.twin_lanes id allocated)
