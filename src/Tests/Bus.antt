-- ===== src/Tests/Bus.antt =====
-- The theorems on the bus at a bus with two segments of 480 bytes.
use universal_multi_segmente.Prelude.{
  ◌+◌, ◌%◌, ◌^◌, ◌≡◌, refl, true, false, none, some, List, [], ◌∷◌, arith, ◌==◌, if◌then◌else◌,
  get_elem?,
}
use universal_multi_segmente.Capsule.{Memory}
use universal_multi_segmente.BiBuffer
use universal_multi_segmente.BiBuffer.{BiBuffer}
use universal_multi_segmente.Segments.{segment_ring_init}
use universal_multi_segmente.Segments.Arena.{arena_init}
use universal_multi_segmente.FeedbackStream.{corrupted, feedback_push}
use universal_multi_segmente.Gpu.{GpuDriver}
use universal_multi_segmente.Bus.{Bus, umsbb_init}
use universal_multi_segmente.Bus.Submit.{umsbb_submit_to}
use universal_multi_segmente.Bus.Drain.{umsbb_drain_from, bytes_at}
use universal_multi_segmente.Bus.Invariant.{IsBus}
use universal_multi_segmente.Bus.History.{
  run, init-IsBus, run-init-IsBus, Call, submit_to, submit, drain_from, configure_gpu,
}
use universal_multi_segmente.Bus.Delivery.{
  IsDrainedWithRoom, IsDrained, submit-drain, submit-drain_corrupted,
}
use universal_multi_segmente.Bus.Isolation.{Untouched, lanes_apart}
use universal_multi_segmente.Bus.Verdict.{verdict, HasOutcome, submit_to-outcome}

abbrev no_gpu : GpuDriver
no_gpu = record { available = false; parallel_copy = λ _. false }

abbrev bus : Bus
bus = umsbb_init no_gpu 4096 480 2

abbrev memory : Memory
memory a = a + 1

abbrev tampered : Memory
tampered a = if a == 102 then 0 else a + 1

bus-IsBus : IsBus bus
bus-IsBus = init-IsBus no_gpu 4096 480 (omega arith) 2 (omega arith)

bus-IsDrainedWithRoom : IsDrainedWithRoom bus 1 (BiBuffer.init 480)
unfolding umsbb_init segment_ring_init arena_init BiBuffer.init
bus-IsDrainedWithRoom = record {
  well_formed = bus-IsBus;
  active = omega arith;
  buffer = refl;
  roomy = omega arith;
  drained = refl;
  fits = omega arith;
  arena_fits = omega arith;
  cpu_only = refl;
}

bus-lane : get_elem? bus.ring.buffers 1 ≡ some (BiBuffer.init 480)
unfolding umsbb_init segment_ring_init
bus-lane = refl

submit-drain_example :
    let (accepted, bus') = umsbb_submit_to no_gpu memory 1000 bus 1 100 4 in
    let (block, data_size, bus'') = umsbb_drain_from no_gpu memory true 2000 bus' 1 in
    (accepted ≡ true) × (block ≡ some (bytes_at memory 100 4)) × (data_size ≡ 4) × IsDrained bus'' 1
submit-drain_example =
    submit-drain no_gpu memory memory 1000 2000 100 4 bus-IsDrainedWithRoom (λ j h. refl)

submit-drain_corrupted_example :
    let bus' = (umsbb_submit_to no_gpu memory 1000 bus 1 100 4).1 in
    let (block, data_size, bus'') = umsbb_drain_from no_gpu tampered true 2000 bus' 1 in
    (block ≡ none)
    × (data_size ≡ 0)
    × (bus''.feedback
        ≡ feedback_push bus'.feedback (record {
          sequence = bus.sequence % 2 ^ 32;
          type = corrupted;
          note = "Checksum mismatch - state machine integrity failure";
          timestamp = 2000 % 2 ^ 64;
        }))
    × IsDrained bus'' 1
submit-drain_corrupted_example =
    submit-drain_corrupted no_gpu memory tampered true 1000 2000 100 4 2 bus-IsDrainedWithRoom
      (omega arith) (ground arith) (λ j h ne. ground arith)

abbrev calls : List Call
calls =
    submit memory 1000 100 4
    ∷ submit_to memory 1001 1 200 8
    ∷ drain_from memory true 1002 0
    ∷ configure_gpu true
    ∷ []

run-init-IsBus_example : IsBus (run no_gpu (umsbb_init no_gpu 4096 480 2) calls)
run-init-IsBus_example = run-init-IsBus no_gpu 4096 480 2 calls (omega arith) (omega arith)

submit_to-outcome_example :
    HasOutcome bus 1000
      (verdict bus (BiBuffer.init 480))
      (umsbb_submit_to no_gpu memory 1000 bus 1 100 4)
unfolding umsbb_init segment_ring_init
submit_to-outcome_example =
    submit_to-outcome no_gpu memory 1000 bus 1 (BiBuffer.init 480) 100 4 bus-IsBus (omega arith)
      bus-lane (omega arith) (omega arith) refl

lanes_apart_example :
    Untouched bus 1 (umsbb_submit_to no_gpu memory 1000 bus 1 100 4).1
    × Untouched bus 1 (umsbb_drain_from no_gpu memory true 1000 bus 1).2
lanes_apart_example = lanes_apart no_gpu memory true 1000 bus 1 100 4
