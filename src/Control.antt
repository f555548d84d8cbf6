-- ===== src/Control.antt =====
-- The counters and flags that steer a bus: src/adaptive_batch.c, src/flow_control.c,
-- src/event_scheduler.c and src/high_water_mark.c with their headers under include/. The null
-- pointers that these functions check for are left out: every argument is an object.
pub mod Batching
pub mod Backpressure
use universal_multi_segmente.Prelude.{
  ℕ, ◌-◌, Bool, true, false, ◌&&◌, ltb, leb, if◌then◌else◌, add_size, sub_size,
}
use universal_multi_segmente.BiBuffer.{BiBuffer}

pub record AdaptiveBatch : Type 0 where
  pub current : ℕ
  pub lowest : ℕ
  pub highest : ℕ
  pub step : ℕ

unfoldable pub batch_init : ℕ → ℕ → ℕ → AdaptiveBatch
batch_init lowest highest step = record {
  current = lowest;
  lowest = lowest;
  highest = highest;
  step = step;
}

-- The call returns the new `current`.
unfoldable pub batch_next : AdaptiveBatch → ℕ → AdaptiveBatch
batch_next b feedback_score =
    if ltb 80 feedback_score && leb (add_size b.current b.step) b.highest
    then record b { current = add_size b.current b.step }
    else if ltb feedback_score 30 && ltb (add_size b.lowest b.step) b.current
    then record b { current = sub_size b.current b.step }
    else b

unfoldable pub batch_reset : AdaptiveBatch → AdaptiveBatch
batch_reset b = record b { current = b.lowest }

pub record FlowControl : Type 0 where
  pub threshold : ℕ

unfoldable pub flow_control_init : ℕ → FlowControl
flow_control_init threshold = record { threshold = threshold }

unfoldable pub flow_should_throttle : BiBuffer → FlowControl → Bool
flow_should_throttle b c =
    let used = if leb b.read_index b.write_index then b.write_index - b.read_index else 0 in
    ltb c.threshold used

pub record EventScheduler : Type 0 where
  pub signal : Bool

unfoldable pub event_init : EventScheduler
event_init = record { signal = false }

unfoldable pub event_signal : EventScheduler → EventScheduler
event_signal e = record { signal = true }

unfoldable pub event_check : EventScheduler → Bool
event_check e = e.signal

unfoldable pub event_clear : EventScheduler → EventScheduler
event_clear e = record { signal = false }

pub record HighWaterMark : Type 0 where
  pub capacity : ℕ
  pub current : ℕ

unfoldable pub hwm_create : ℕ → HighWaterMark
hwm_create capacity = record { capacity = capacity; current = 0 }

unfoldable pub hwm_push : HighWaterMark → ℕ → Bool × HighWaterMark
hwm_push h n =
    let current = add_size h.current n in (leb current h.capacity, record h { current = current })

unfoldable pub hwm_pop : HighWaterMark → ℕ → HighWaterMark
hwm_pop h n =
    if ltb n h.current then record h { current = h.current - n } else record h { current = 0 }

unfoldable pub hwm_is_overflow : HighWaterMark → Bool
hwm_is_overflow h = ltb h.capacity h.current
