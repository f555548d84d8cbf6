-- ===== src/Tests/Systems.antt =====
-- The theorem on reliable sends at the first send of a new bus.
use universal_multi_segmente.Prelude.{ℕ, ◌<◌, ◌≡◌, ◌⊎◌, List, [], ◌∷◌, arith, add_size, add32}
use universal_multi_segmente.Handshake.{send_message, handshake_init}
use universal_multi_segmente.FaultTolerance.{overflow, report_fault}
use universal_multi_segmente.Systems.{systems_init, send_reliable}
use universal_multi_segmente.Systems.Reliable.{send_reliable-queues}

abbrev payload : List ℕ
payload = 7 ∷ 8 ∷ []

send_reliable-queues_example :
    let y = systems_init in
    let (sequence, y') = send_reliable y 100 1 2 payload in
    (sequence ≡ y.handshake.head)
    × (y'.handshake ≡ (send_message y.handshake 100 1 2 payload).1)
    × (y'.handshake.pending_count ≡ add32 y.handshake.pending_count 1)
    × (((0 < y.handshake.head)
          × (y'.fault_tolerance ≡ y.fault_tolerance)
          × (y'.total_operations ≡ add_size y.total_operations 1))
        ⊎ ((y.handshake.head ≡ 0)
            × (y'.fault_tolerance ≡ (report_fault y.fault_tolerance 100 100 overflow 1).1)
            × (y'.total_operations ≡ y.total_operations)))
unfolding systems_init handshake_init
send_reliable-queues_example =
    send_reliable-queues systems_init 100 1 2 payload (omega arith) (omega arith)
