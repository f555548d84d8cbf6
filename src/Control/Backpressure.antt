-- ===== src/Control/Backpressure.antt =====
-- When src/flow_control.c and src/high_water_mark.c hold a producer back.
use universal_multi_segmente.Prelude.{ℕ, ◌+◌, ◌^◌, ◌<◌, ◌≡◌, not, arith, ltb}
use universal_multi_segmente.BiBuffer.{BiBuffer}
use universal_multi_segmente.BiBuffer.Invariant.{IsValid}
use universal_multi_segmente.Control.{
  FlowControl, flow_should_throttle, HighWaterMark, hwm_push, hwm_pop, hwm_is_overflow,
}

-- On a valid buffer the throttle compares the bytes that are written and not yet read.
pub throttle_lem :
    {b : BiBuffer} (c : FlowControl)
    → IsValid b
    → flow_should_throttle b c ≡ ltb (c.threshold + b.read_index) b.write_index
unfolding flow_should_throttle
throttle_lem {b} c v = ground arith

-- Taking back what was pushed gives the level from before, if the counter does not wrap; the push
-- answers no exactly when it leaves the mark overflowed, and is counted all the same.
pub hwm_pop-push :
    (h : HighWaterMark) (n : ℕ)
    → h.current + n < 2 ^ 64
    → (hwm_pop (hwm_push h n).1 n ≡ h)
      × ((hwm_push h n).0 ≡ not (hwm_is_overflow (hwm_push h n).1))
      × ((hwm_push h n).1.current ≡ h.current + n)
unfolding hwm_push hwm_pop hwm_is_overflow
hwm_pop-push h n k = ground arith
