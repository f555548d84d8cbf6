-- ===== src/Tests/Bindings.antt =====
-- The theorems on the language bindings at a new bus with two segments.
use universal_multi_segmente.Prelude.{◌≤◌, ◌≡◌, refl, true, false, none, some, arith, set, ◌+◌}
use universal_multi_segmente.Capsule.{Memory}
use universal_multi_segmente.BiBuffer
use universal_multi_segmente.Gpu.{GpuDriver}
use universal_multi_segmente.Segments.{segment_ring_init}
use universal_multi_segmente.Segments.Arena.{arena_init}
use universal_multi_segmente.Bus.{Bus, umsbb_init}
use universal_multi_segmente.Bus.History.{init-IsBus}
use universal_multi_segmente.Bus.Drain.{bytes_at}
use universal_multi_segmente.Bus.Delivery.{IsDrainedWithRoom}
use universal_multi_segmente.Standalone.Bytes.{load}
use universal_multi_segmente.Bindings.{
  UniversalData, LanguageRuntime, ScalingConfig, above_100, Bindings, start, zero_config,
  convert_data_for_language, language, allocate, free_universal_data, get_language_runtime,
}
use universal_multi_segmente.Bindings.AutoScaling.{
  trigger_scale_evaluation, get_optimal_producer_count,
}
use universal_multi_segmente.Bindings.Direct.{submit_direct, drain_direct}
use universal_multi_segmente.Bindings.Limits.{
  begin, configure, evaluate, trigger-between, Reach-one_producer,
}
use universal_multi_segmente.Bindings.Owners.{convert-mismatches}
use universal_multi_segmente.Bindings.Delivery.{submit-drain_direct}
use universal_multi_segmente.Bindings.AutoScaling.{configure_auto_scaling}

abbrev no_gpu : GpuDriver
no_gpu = record { available = false; parallel_copy = λ _. false }

abbrev bus : Bus
bus = umsbb_init no_gpu 4096 480 2

abbrev memory : Memory
memory a = a + 1

abbrev packet : UniversalData
packet = record { data_ptr = 100; size = 4; type_id = 6; source_lang = 2 }

bus-IsDrainedWithRoom : IsDrainedWithRoom bus 0 (BiBuffer.init 480)
unfolding umsbb_init segment_ring_init arena_init BiBuffer.init
bus-IsDrainedWithRoom = record {
  well_formed = init-IsBus no_gpu 4096 480 (omega arith) 2 (omega arith);
  active = omega arith;
  buffer = refl;
  roomy = omega arith;
  drained = refl;
  fits = omega arith;
  arena_fits = omega arith;
  cpu_only = refl;
}

submit-drain_direct_example :
    let (accepted, s', bus') = submit_direct no_gpu memory 1000 start bus packet in
    let (received, m', t', bus'') =
      drain_direct no_gpu memory true true (some 500) 2000 start bus' 3 in
    (accepted ≡ true)
    × (received ≡ some (record { data_ptr = 500; size = 4; type_id = 0; source_lang = 3 }))
    × (load m' 500 4 ≡ bytes_at memory 100 4)
unfolding umsbb_init get_language_runtime allocate
submit-drain_direct_example =
    submit-drain_direct no_gpu memory memory 1000 2000 start start packet 3 500 (some 500)
      bus-IsDrainedWithRoom (omega arith) refl (omega arith) (λ j h. refl) refl

abbrev python : LanguageRuntime
python = record {
  lang_type = 2;
  lang_name = "Python";
  allocator = none;
  deallocator = true;
  data_validator = none;
}

abbrev with_python : Bindings
with_python = record start { registered_runtimes = set start.registered_runtimes 2 (some python) }

convert-mismatches_example :
    (dst : UniversalData) × (m' : Memory) × (convert_data_for_language with_python memory packet 3
        (some 500)
      ≡ (some dst, m'))
    × (dst.data_ptr ≡ 500)
    × (load m' 500 dst.size ≡ load memory 100 4)
    × (free_universal_data with_python dst ≡ language 2)
unfolding get_language_runtime
convert-mismatches_example =
    convert-mismatches with_python memory packet 3 500 python refl refl refl

abbrev config : ScalingConfig
config = record zero_config {
  min_producers = 1;
  max_producers = 4;
  min_consumers = 2;
  max_consumers = 3;
}

abbrev slow : Bindings
slow = record start {
  config = config;
  stats = record (start.stats) { active_producers = 3; latency = above_100 };
}

trigger-between_example :
    let t = (trigger_scale_evaluation no_gpu slow 9).stats in
    (1 ≤ t.active_producers)
    × (t.active_producers ≤ 4)
    × (2 ≤ t.active_consumers)
    × (t.active_consumers ≤ 3)
trigger-between_example =
    trigger-between no_gpu slow 9 refl (omega arith) (omega arith) (omega arith) (omega arith)

Reach-one_producer_example :
    let s = trigger_scale_evaluation no_gpu (configure_auto_scaling start config) 9 in
    (s.stats.active_producers ≡ 0) × (get_optimal_producer_count s ≡ 1)
Reach-one_producer_example = Reach-one_producer (evaluate no_gpu 9 (configure config begin))
