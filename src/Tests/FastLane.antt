-- ===== src/Tests/FastLane.antt =====
-- The theorems on the fast lanes at new lanes and at a lane with two slots.
use universal_multi_segmente.Prelude.{◌≡◌, refl, true, false, none, List, [], ◌∷◌, arith, ℕ}
use universal_multi_segmente.Standalone.Bytes.{from_bytes, take}
use universal_multi_segmente.FastLane.{express, FastLane, submit, drain}
use universal_multi_segmente.FastLane.Slots.{IsDrained, submit_stalls, submit-drain_dropped}

-- "hello"
abbrev hello : List ℕ
hello = 104 ∷ 101 ∷ 108 ∷ 108 ∷ 111 ∷ []

abbrev lane : FastLane
lane = record {
  head = 1;
  tail = 1;
  message_count = 0;
  bytes_transferred = 5;
  type = express;
  rank = 3;
  capacity = 2;
  gpu_preferred = false;
  bytes = λ o. 0;
  slot_size = 256;
  total_messages = 1;
  total_bytes = 5;
}

lane-IsDrained : IsDrained lane
lane-IsDrained = record {
  drained = refl;
  first_lap = omega arith;
  narrow = omega arith;
  slots = omega arith;
  slots_fit = omega arith;
}

submit-drain_dropped_example :
    let (accepted, l') = submit lane (1 ∷ []) hello in
    let (block, l'') = drain l' true in
    (accepted ≡ true) × (block ≡ none) × (l''.tail ≡ l''.head) × (l''.message_count ≡ 1)
submit-drain_dropped_example =
    submit-drain_dropped lane hello true lane-IsDrained (omega arith) (omega arith)
      (unfold from_bytes take in refl)

abbrev lapped : FastLane
lapped = record lane { head = 2; tail = 2 }

submit_stalls_example : submit lapped (2 ∷ 2 ∷ []) hello ≡ (false, record lapped { head = 3 })
submit_stalls_example =
    submit_stalls lapped (2 ∷ 2 ∷ []) hello (omega arith) (omega arith)
      ((omega arith, omega arith), ((omega arith, omega arith), tt)) (omega arith) (omega arith)
