-- ===== src/Tests/Parallel.antt =====
-- The theorems on the parallel engine at a ring with one item and at an engine of five workers.
use universal_multi_segmente.Prelude.{
  ℕ, ◌+◌, ◌≤◌, ◌<◌, ◌≡◌, refl, ◌⊎◌, true, false, some, [], ◌∷◌, ◌++◌, arith, get_or, add_size,
}
use universal_multi_segmente.Parallel.{
  WorkItem, RingBuffer, copied, write_item, publish, claim_slot, parallel_ring_buffer_pop,
}
use universal_multi_segmente.Parallel.Engine.{
  Engine, balanced, blank_item, blank_worker, empty_ring, new_engine, parallel_engine_init, ring_at,
}
use universal_multi_segmente.Parallel.Interleaving.{
  Shared, claim, write, publish_tail, Reach, start, step, window, fresh,
}
use universal_multi_segmente.Parallel.Fifo.{Reach-fifo}
use universal_multi_segmente.Parallel.Race.{engine_races, alternate}
use universal_multi_segmente.Parallel.Front.{ParallelBus, submit_to}
use universal_multi_segmente.Parallel.Answers.{
  submit_to-inverts, next_depth, offered_item, recounted_bus, counted_bus, accepted_engine,
  refused_engine,
}

abbrev item : WorkItem
item = record blank_item { message_id = 7; size = 3; address = 4096 }

-- One push, come to its end.
abbrev pushed : Shared
pushed = record fresh {
  ring = publish (write_item empty_ring 0 item) 0;
  offered = item;
  sent = item ∷ [];
}

pushed-Reach : Reach pushed
unfolding claim_slot write_item publish
pushed-Reach =
    step (step (step start (claim refl (omega arith))) (write 0 item refl)) (publish_tail 0 refl)

Reach-fifo_example :
    (n : ℕ) × (n ≤ 4096)
    × (pushed.ring.tail ≡ pushed.ring.head + n)
    × (pushed.sent ≡ pushed.received ++ window pushed.ring.items pushed.ring.head n)
Reach-fifo_example = Reach-fifo pushed-Reach

abbrev filled : RingBuffer
filled = record empty_ring { tail = 1; items = λ i. item }

engine_races_example :
    (e : Engine) × (x : WorkItem) × (parallel_engine_init 5 balanced true ≡ some e)
    × ((get_or e.workers 0 blank_worker).work_queue ≡ (get_or e.workers 4 blank_worker).work_queue)
    × (parallel_ring_buffer_pop filled ≡ (some x, record filled { head = add_size filled.head 1 }))
    × (alternate filled ≡ (
      copied filled.head x,
      copied filled.head x,
      record filled { head = add_size filled.head 1 },
    ))
engine_races_example = engine_races 5 balanced 0 filled (omega arith) (omega arith) (omega arith)

abbrev bus : ParallelBus
bus = record {
  buffer_capacity = 1024;
  segment_count = 4;
  engine = some (new_engine 2 balanced);
  worker_thread_count = 2;
  current_strategy = balanced;
  language_performance_stats = 0 ∷ 0 ∷ 0 ∷ 0 ∷ 0 ∷ 0 ∷ [];
  total_operations = 0;
  last_update_time = 0;
}

submit_to-inverts_example :
    let e = new_engine 2 balanced in
    let r = ring_at e 1 in
    let x = offered_item e 1 4096 3 100 0 9 in
    ((next_depth r ≤ r.capacity)
      × (submit_to bus 1 4096 3 9 ≡ (false, recounted_bus bus (accepted_engine e 1 x))))
    ⊎ ((r.capacity < next_depth r)
        × (submit_to bus 1 4096 3 9 ≡ (true, counted_bus bus (refused_engine e))))
unfolding new_engine
submit_to-inverts_example =
    submit_to-inverts bus (new_engine 2 balanced) 1 4096 3 9 refl (omega arith) (omega arith)
      (omega arith) (omega arith) (omega arith)
