-- ===== src/Bindings/Direct.antt =====
-- The direct bindings of src/language_bindings.c, on the bus of
-- src/universal_multi_segmented_bi_buffer_bus.c.
use universal_multi_segmente.Prelude.{
  ℕ, zero, suc, ◌+◌, ◌*◌, ◌%◌, Bool, true, false, ◌&&◌, Option, none, some, ltb, ◌==◌,
  if◌then◌else◌, add_size, add32,
}
use universal_multi_segmente.Capsule.{Memory}
use universal_multi_segmente.Gpu.{GpuDriver, try_gpu_execute}
use universal_multi_segmente.Bus.{Bus, umsbb_init}
use universal_multi_segmente.Bus.Submit.{umsbb_submit_to}
use universal_multi_segmente.Bus.Drain.{Drained, umsbb_drain_from}
use universal_multi_segmente.Bindings.{UniversalData, Bindings, create_universal_data}
use universal_multi_segmente.Bindings.AutoScaling.{
  trigger_scale_evaluation, get_optimal_producer_count, get_optimal_consumer_count,
}

-- The detection of an accelerator is the driver's.
unfoldable pub create_direct : GpuDriver → Bindings → ℕ → ℕ → ℕ → Bus
create_direct d s arena_address buffer_size segment_count = umsbb_init d arena_address buffer_size (
    if segment_count == 0
    then add32 (get_optimal_producer_count s) (get_optimal_consumer_count s)
    else segment_count)

-- Large data is tried on the accelerator, whatever becomes of it then.
unfoldable pub tried_gpu : GpuDriver → Bindings → ℕ → Bindings
tried_gpu d s size =
    if s.config.gpu_preferred && ltb (1024 * 1024) size && try_gpu_execute d size
    then record s { stats = record s.stats { gpu_operations = add_size s.stats.gpu_operations 1 } }
    else s

abbrev pub count_operation : Bindings → Bindings
count_operation s = record s {
  stats = record s.stats { total_operations = add_size s.stats.total_operations 1 };
}

unfoldable pub submitted : GpuDriver → ℕ → Bindings → Bool × Bus → Bool × Bindings × Bus
submitted d now s (true, bus) = (true, trigger_scale_evaluation d (count_operation s) now, bus)
submitted d now s (false, bus) = (false, s, bus)

-- `umsbb_submit_direct`. A bus has at least one segment.
unfoldable pub submit_direct :
    GpuDriver → Memory → ℕ → Bindings → Bus → UniversalData → Bool × Bindings × Bus
submit_direct d m now s bus data_of = submitted d now (tried_gpu d s data_of.size) (
    umsbb_submit_to d m now bus (data_of.type_id % bus.segment_count) data_of.data_ptr data_of.size)

-- What a drain gives, with the state after it.
abbrev pub Received : Type 0
Received = Option UniversalData × Memory × Bindings × Bus

unfoldable pub wrapped : Bindings → Bus → Option UniversalData × Memory → Received
wrapped s bus (created, m) = (created, m, count_operation s, bus)

-- One round, with what `umsbb_drain_from` gave and what the rounds behind it would.
unfoldable pub drain_round :
    Memory → Bool → Option ℕ → Bindings → ℕ → ℕ → Drained → Received → Received
drain_round m allocated block s i lang (none, size, bus) rest = rest
drain_round m allocated block s i lang (some bytes, zero, bus) rest = rest
drain_round m allocated block s i lang (some bytes, suc size, bus) rest =
    wrapped s bus (create_universal_data s m allocated block bytes i lang)

-- The loop of `umsbb_drain_direct`, with the rounds that are left and `i`. `drained` says that the
-- drains get their blocks, `allocated` that the structure gets its block, and `block` is the one that
-- `malloc` would give for the data.
unfoldable pub drain_rounds :
    GpuDriver → Memory → Bool → Bool → Option ℕ → ℕ → Bindings → ℕ → ℕ → ℕ → Bus → Received
drain_rounds d m drained allocated block now s lang zero i bus = (none, m, s, bus)
drain_rounds d m drained allocated block now s lang (suc n) i bus =
    let answer = umsbb_drain_from d m drained now bus i in
    let rest = drain_rounds d m drained allocated block now s lang n (i + 1) (answer.2) in
    drain_round m allocated block s i lang answer rest

unfoldable pub drain_direct :
    GpuDriver → Memory → Bool → Bool → Option ℕ → ℕ → Bindings → Bus → ℕ → Received
drain_direct d m drained allocated block now s bus lang =
    drain_rounds d m drained allocated block now s lang bus.segment_count 0 bus
