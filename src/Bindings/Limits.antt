-- ===== src/Bindings/Limits.antt =====
-- The numbers of producers and consumers of src/language_bindings.c.
use universal_multi_segmente.Prelude.{
  ℕ, zero, suc, ◌+◌, ◌*◌, ◌^◌, ◌≤◌, ◌<◌, ◌≡◌, refl, Bool, true, false, Option, none, some, arith,
  ltb, leb, Bool-cases, inl, inr, ◌&&◌,
}
use universal_multi_segmente.Capsule.{Memory}
use universal_multi_segmente.Gpu.{GpuDriver, try_gpu_execute}
use universal_multi_segmente.Bus.{Bus}
use universal_multi_segmente.Bus.Drain.{Drained, umsbb_drain_from}
use universal_multi_segmente.Bindings.{
  LanguageRuntime, UniversalData, ScalingConfig, Latency, below_10, between, above_100,
  PerformanceStats, Bindings, start, register_language_runtime, unregister_language_runtime,
  runtime_count,
}
use universal_multi_segmente.Bindings.AutoScaling.{
  configure_auto_scaling, scaled_producers, wanted_consumers, clamped, is_too_soon, evaluated,
  trigger_scale_evaluation, get_optimal_producer_count,
}
use universal_multi_segmente.Bindings.Direct.{
  tried_gpu, count_operation, submitted, submit_direct, Received, wrapped, drain_round,
  drain_rounds, drain_direct,
}

scaled_producers-between :
    (l : Latency) (c : ScalingConfig) (n : ℕ)
    → c.max_producers < 2 ^ 32
    → c.min_producers ≤ n
    → n ≤ c.max_producers
    → (c.min_producers ≤ scaled_producers l c n) × (scaled_producers l c n ≤ c.max_producers)
unfolding scaled_producers
scaled_producers-between below_10 c n h p q = (ground arith, ground arith)
scaled_producers-between between c n h p q = (p, q)
scaled_producers-between above_100 c n h p q = (ground arith, ground arith)

clamped-between :
    (c : ScalingConfig) (n : ℕ)
    → c.min_consumers ≤ c.max_consumers
    → (c.min_consumers ≤ clamped c n) × (clamped c n ≤ c.max_consumers)
unfolding clamped
clamped-between c n h = (ground arith, ground arith)

-- Where the configuration has its lower bounds below its upper ones and the producers within theirs,
-- an evaluation that is not too soon keeps the producers within their bounds, and brings the
-- consumers within theirs, whatever the latency is.
pub trigger-between :
    (d : GpuDriver) (s : Bindings) (now : ℕ)
    → is_too_soon s now ≡ false
    → s.config.max_producers < 2 ^ 32
    → s.config.min_producers ≤ s.stats.active_producers
    → s.stats.active_producers ≤ s.config.max_producers
    → s.config.min_consumers ≤ s.config.max_consumers
    → let t = (trigger_scale_evaluation d s now).stats in
      (s.config.min_producers ≤ t.active_producers)
      × (t.active_producers ≤ s.config.max_producers)
      × (s.config.min_consumers ≤ t.active_consumers)
      × (t.active_consumers ≤ s.config.max_consumers)
unfolding trigger_scale_evaluation evaluated
trigger-between d s now late narrow p q h =
    let producers =
      scaled_producers-between s.stats.latency s.config s.stats.active_producers narrow p q in
    let consumers =
      clamped-between s.config
        (wanted_consumers d s.config
          (scaled_producers s.stats.latency s.config s.stats.active_producers))
        h in
    rw late (producers.0, producers.1, consumers.0, consumers.1)

-- No producer counted, and no latency ever recorded.
pub record IsIdle (t : PerformanceStats) : Type 0 where
  pub producers : t.active_producers ≡ 0
  pub latency : t.latency ≡ below_10

evaluated-IsIdle :
    (d : GpuDriver) (c : ScalingConfig) (t : PerformanceStats) (now : ℕ)
    → IsIdle t
    → IsIdle (evaluated d c t now)
unfolding evaluated scaled_producers
evaluated-IsIdle d c t now v = record {
  producers = rw (v.latency, v.producers) (ground arith);
  latency = v.latency;
}

trigger-IsIdle :
    (d : GpuDriver) (s : Bindings) (now : ℕ)
    → IsIdle s.stats
    → IsIdle (trigger_scale_evaluation d s now).stats
unfolding trigger_scale_evaluation
trigger-IsIdle d s now v = elim (Bool-cases (is_too_soon s now)) [
  | inl e ↦ rw e v
  | inr e ↦ rw e (evaluated-IsIdle d s.config s.stats now v)
]

tried_gpu-IsIdle :
    (d : GpuDriver) (s : Bindings) (size : ℕ) → IsIdle s.stats → IsIdle (tried_gpu d s size).stats
unfolding tried_gpu
tried_gpu-IsIdle d s size v =
    elim (Bool-cases (s.config.gpu_preferred && ltb (1024 * 1024) size && try_gpu_execute d size)) [
      | inl e ↦ rw e (record { producers = v.producers; latency = v.latency })
      | inr e ↦ rw e v
    ]

submitted-IsIdle :
    (d : GpuDriver) (now : ℕ) (s : Bindings) (answer : Bool × Bus)
    → IsIdle s.stats
    → IsIdle (submitted d now s answer).1.stats
unfolding submitted
submitted-IsIdle d now s (true, bus) v =
    trigger-IsIdle d (count_operation s) now
      (record { producers = v.producers; latency = v.latency })
submitted-IsIdle d now s (false, bus) v = v

drain_round-IsIdle :
    (m : Memory) (allocated : Bool) (block : Option ℕ) (s : Bindings) (i lang : ℕ)
    (answer : Drained) (rest : Received)
    → IsIdle s.stats
    → IsIdle rest.2.stats
    → IsIdle (drain_round m allocated block s i lang answer rest).2.stats
unfolding drain_round wrapped
drain_round-IsIdle m allocated block s i lang (none, size, bus) rest v w = w
drain_round-IsIdle m allocated block s i lang (some bytes, zero, bus) rest v w = w
drain_round-IsIdle m allocated block s i lang (some bytes, suc size, bus) rest v w = record {
  producers = v.producers;
  latency = v.latency;
}

drain_rounds-IsIdle :
    (d : GpuDriver) (m : Memory) (drained allocated : Bool) (block : Option ℕ) (now : ℕ)
    (s : Bindings) (lang n i : ℕ) (bus : Bus)
    → IsIdle s.stats
    → IsIdle (drain_rounds d m drained allocated block now s lang n i bus).2.stats
unfolding drain_rounds
drain_rounds-IsIdle d m drained allocated block now s lang zero i bus v = v
drain_rounds-IsIdle d m drained allocated block now s lang (suc n) i bus v =
    drain_round-IsIdle m allocated block s i lang (umsbb_drain_from d m drained now bus i) _ v
      (drain_rounds-IsIdle d m drained allocated block now s lang n (i + 1) _ v)

-- The states of the static variables through any calls.
pub data Reach : Bindings → Type 0 where
  begin : Reach start
  register :
      {s : Bindings} (lang : ℕ) (runtime : LanguageRuntime)
      → Reach s
      → Reach (register_language_runtime s lang runtime).1
  unregister : {s : Bindings} (lang : ℕ) → Reach s → Reach (unregister_language_runtime s lang).1
  configure :
      {s : Bindings} (config : ScalingConfig) → Reach s → Reach (configure_auto_scaling s config)
  evaluate :
      {s : Bindings} (d : GpuDriver) (now : ℕ) → Reach s → Reach (trigger_scale_evaluation d s now)
  submit :
      {s : Bindings} (d : GpuDriver) (m : Memory) (now : ℕ) (bus : Bus) (x : UniversalData)
      → Reach s
      → Reach (submit_direct d m now s bus x).1
  drain :
      {s : Bindings} (d : GpuDriver) (m : Memory) (drained allocated : Bool) (block : Option ℕ)
      (now : ℕ) (bus : Bus) (lang : ℕ)
      → Reach s
      → Reach (drain_direct d m drained allocated block now s bus lang).2

Reach-IsIdle : {s : Bindings} → Reach s → IsIdle s.stats
unfolding register_language_runtime unregister_language_runtime configure_auto_scaling submit_direct
    drain_direct
Reach-IsIdle begin = record { producers = refl; latency = refl }
Reach-IsIdle (register lang runtime r) = elim (Bool-cases (leb runtime_count lang)) [
  | inl e ↦ rw e (Reach-IsIdle r)
  | inr e ↦ rw e (Reach-IsIdle r)
]
Reach-IsIdle (unregister lang r) = elim (Bool-cases (leb runtime_count lang)) [
  | inl e ↦ rw e (Reach-IsIdle r)
  | inr e ↦ rw e (Reach-IsIdle r)
]
Reach-IsIdle (configure config r) = Reach-IsIdle r
Reach-IsIdle (evaluate {s} d now r) = trigger-IsIdle d s now (Reach-IsIdle r)
Reach-IsIdle (submit {s} d m now bus x r) =
    submitted-IsIdle d now (tried_gpu d s x.size) _ (tried_gpu-IsIdle d s x.size (Reach-IsIdle r))
Reach-IsIdle (drain {s} d m drained allocated block now bus lang r) =
    drain_rounds-IsIdle d m drained allocated block now s lang bus.segment_count 0 bus
      (Reach-IsIdle r)

-- Through any calls the scaling counts no producer, and recommends one.
pub Reach-one_producer :
    {s : Bindings} → Reach s → (s.stats.active_producers ≡ 0) × (get_optimal_producer_count s ≡ 1)
unfolding get_optimal_producer_count
Reach-one_producer r = let v = Reach-IsIdle r in (v.producers, rw v.producers refl)
