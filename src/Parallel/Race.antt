-- ===== src/Parallel/Race.antt =====
-- Two workers of src/parallel_throughput_engine.c on one ring.
use universal_multi_segmente.Prelude.{
  ℕ, zero, suc, ◌+◌, ◌%◌, ◌≤◌, ◌<◌, ◌≡◌, refl, ap, sym, ◌∙◌, ◌||◌, ◌≢◌, ◌⊎◌, true, false, some,
  List, arith, ltb, ◌==◌, ==_iff, Bool-cases, inl, inr, add_size, get_or, replicate, ◌-◌,
}
use Prim.Native.Nat.{bit_and}
use universal_multi_segmente.Parallel.{
  WorkItem, RingBuffer, Consumer, loaded, copied, load_head, copy_item, free_slot,
  parallel_ring_buffer_pop,
}
use universal_multi_segmente.Parallel.Engine.{
  ThroughputStrategy, Worker, Engine, blank_worker, init_workers, new_engine, max_worker_threads,
  parallel_engine_init,
}

-- The second access of a pop, and the third, with the ring that they leave.
abbrev pub copy_step : RingBuffer → Consumer → Consumer
copy_step r Consumer.idle = Consumer.idle
copy_step r (loaded h) = copy_item r h
copy_step r (copied h x) = copied h x

abbrev pub free_step : RingBuffer → Consumer → RingBuffer
free_step r Consumer.idle = r
free_step r (loaded h) = r
free_step r (copied h x) = free_slot r h

-- Two pops whose accesses alternate: what each has copied, and the ring in the end.
unfoldable pub alternate : RingBuffer → Consumer × Consumer × RingBuffer
alternate r =
    let a = copy_step r (load_head r) in
    let b = copy_step r (load_head r) in (a, b, free_step (free_step r a) b)

worker_at :
    (n i k : ℕ) (rest : List Worker)
    → k < n
    → (get_or (init_workers n i rest) k blank_worker).work_queue ≡ (i + k) % 4
unfolding init_workers
worker_at zero i k rest h = absurd (omega arith)
worker_at (suc n) i zero rest h = omega arith
worker_at (suc n) i (suc k) rest h =
    worker_at n (i + 1) k rest (omega arith) ∙ ap (λ x. x % 4) (omega arith)

-- An engine with more than four workers gives two of them the same ring, and where their pops
-- alternate on a ring that is not empty, both take the same item, and the ring loses only that one.
pub engine_races :
    (n : ℕ) (strategy : ThroughputStrategy) (k : ℕ) (r : RingBuffer)
    → n ≤ max_worker_threads
    → k + 4 < n
    → r.head ≢ r.tail
    → (e : Engine) × (item : WorkItem) × (parallel_engine_init n strategy true ≡ some e)
      × ((get_or e.workers k blank_worker).work_queue
          ≡ (get_or e.workers (k + 4) blank_worker).work_queue)
      × (parallel_ring_buffer_pop r ≡ (some item, record r { head = add_size r.head 1 }))
      × (alternate r
          ≡ (copied r.head item, copied r.head item, record r { head = add_size r.head 1 }))
unfolding alternate load_head copy_item free_slot parallel_ring_buffer_pop parallel_engine_init
engine_races n strategy k r few h ne =
    let e : (r.head == r.tail) ≡ false = differ (Bool-cases (r.head == r.tail)) in
    (new_engine n strategy, r.items (bit_and r.head r.mask), started, shared, rw e refl, rw e refl)
  where
    differ : ((r.head == r.tail) ≡ true) ⊎ ((r.head == r.tail) ≡ false) → (r.head == r.tail) ≡ false
    differ (inl f) = absurd (ne ((==_iff r.head r.tail).0 f))
    differ (inr f) = f

    started : parallel_engine_init n strategy true ≡ some (new_engine n strategy)
    started = let e : (n == 0 || ltb max_worker_threads n) ≡ false = ground arith in rw e refl

    shared :
        (get_or (new_engine n strategy).workers k blank_worker).work_queue
        ≡ (get_or (new_engine n strategy).workers (k + 4) blank_worker).work_queue
    shared =
        unfold new_engine in
        worker_at n 0 k (replicate (max_worker_threads - n) blank_worker) (omega arith)
        ∙ omega arith
        ∙ sym (worker_at n 0 (k + 4) (replicate (max_worker_threads - n) blank_worker) h)
