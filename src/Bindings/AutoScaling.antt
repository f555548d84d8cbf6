-- ===== src/Bindings/AutoScaling.antt =====
-- The scaling of src/language_bindings.c. The mutex makes each call one step.
use universal_multi_segmente.Prelude.{ℕ, ◌+◌, ◌/◌, Bool, ◌&&◌, ltb, if◌then◌else◌, add32, sub32}
use universal_multi_segmente.Gpu.{GpuDriver, gpu_available}
use universal_multi_segmente.Bindings.{
  ScalingConfig, Latency, below_10, between, above_100, PerformanceStats, Bindings,
}

unfoldable pub configure_auto_scaling : Bindings → ScalingConfig → Bindings
configure_auto_scaling s config = record s { config = config }

unfoldable pub get_scaling_config : Bindings → ScalingConfig
get_scaling_config s = s.config

-- The producers after an evaluation.
unfoldable pub scaled_producers : Latency → ScalingConfig → ℕ → ℕ
scaled_producers above_100 config n = if ltb n config.max_producers then add32 n 1 else n
scaled_producers below_10 config n = if ltb config.min_producers n then sub32 n 1 else n
scaled_producers between config n = n

-- The consumers for `n` producers.
unfoldable pub wanted_consumers : GpuDriver → ScalingConfig → ℕ → ℕ
wanted_consumers d config n = if config.gpu_preferred && gpu_available d then add32 n 1 / 2 else n

unfoldable pub clamped : ScalingConfig → ℕ → ℕ
clamped config n =
    let raised = if ltb n config.min_consumers then config.min_consumers else n in
    if ltb config.max_consumers raised then config.max_consumers else raised

-- `now - last_scale_time < scale_cooldown_ms / 1000` in signed numbers.
abbrev pub is_too_soon : Bindings → ℕ → Bool
is_too_soon s now = ltb now (s.stats.last_scale_time + s.config.scale_cooldown_ms / 1000)

unfoldable pub evaluated : GpuDriver → ScalingConfig → PerformanceStats → ℕ → PerformanceStats
evaluated d config t now =
    let producers = scaled_producers t.latency config t.active_producers in
    record t {
      active_producers = producers;
      active_consumers = clamped config (wanted_consumers d config producers);
      last_scale_time = now;
    }

unfoldable pub trigger_scale_evaluation : GpuDriver → Bindings → ℕ → Bindings
trigger_scale_evaluation d s now =
    if is_too_soon s now then s else record s { stats = evaluated d s.config s.stats now }

unfoldable pub get_optimal_producer_count : Bindings → ℕ
get_optimal_producer_count s =
    if ltb 0 s.stats.active_producers then s.stats.active_producers else 1

unfoldable pub get_optimal_consumer_count : Bindings → ℕ
get_optimal_consumer_count s =
    if ltb 0 s.stats.active_consumers then s.stats.active_consumers else 1
