-- ===== src/Parallel/Fifo.antt =====
-- The ring of include/parallel_throughput_engine.h between one producer and one consumer passes its
-- items on in order.
use universal_multi_segmente.Prelude.{
  ℕ, zero, suc, ◌+◌, ◌%◌, ◌^◌, ◌≤◌, ◌<◌, ◌≡◌, refl, sym, ap, ◌∙◌, subst, [], ◌∷◌, ◌++◌, arith, true,
  ◌==◌, ==_refl, add_size, update,
}
use Prim.Native.Nat.{bit_and}
use mathlib.Core.List.{append_assoc}
use universal_multi_segmente.Parallel.{
  claim_slot, WorkItem, RingBuffer, Producer, claimed, written, Consumer, loaded, copied,
  write_item, publish, copy_item, free_slot,
}
use universal_multi_segmente.Parallel.Masks.{bit_and-4095}
use universal_multi_segmente.Parallel.Interleaving.{
  Shared, Step, claim, write, publish_tail, load, copy, free, Reach, start, step, window,
  window-snoc, window-update, apart, Pushing, Popping, IsShared, claim-Pushing, load-Popping,
}

write_item-lem :
    (r : RingBuffer) (t : ℕ) (x : WorkItem)
    → r.mask ≡ 4095
    → t ≡ r.tail
    → write_item r t x ≡ record r { items = update r.items (r.tail % 4096) x }
unfolding write_item
write_item-lem r t x e f =
    ap (λ i. record r { items = update r.items i x })
      (ap (λ k. bit_and t k) e ∙ bit_and-4095 t ∙ ap (λ k. k % 4096) f)

Popping-write :
    (r : RingBuffer) (x : WorkItem) (c : Consumer)
    → r.tail < r.head + 4096
    → Popping r c
    → Popping (record r { items = update r.items (r.tail % 4096) x }) c
Popping-write r x Consumer.idle h p = tt
Popping-write r x (loaded a) h p = p
Popping-write r x (copied a y) h p = (p.0, p.1, rw (apart r.head r.tail p.1 h) p.2)

Popping-publish :
    (r : RingBuffer) (t : ℕ) (c : Consumer)
    → r.tail < t
    → Popping r c
    → Popping (record r { tail = t }) c
Popping-publish r t Consumer.idle h p = tt
Popping-publish r t (loaded a) h p = (p.0, omega (arith, p.1))
Popping-publish r t (copied a y) h p = (p.0, omega (arith, p.1), p.2)

Pushing-free :
    (r : RingBuffer) (x : WorkItem) (p : Producer)
    → Pushing r x p
    → Pushing (record r { head = r.head + 1 }) x p
Pushing-free r x Producer.idle v = tt
Pushing-free r x (claimed t) v = (v.0, omega (arith, v.1), v.2)
Pushing-free r x (written t) v = (v.0, omega (arith, v.1), v.2, v.3)

module _ (s : Shared) (v : IsShared s) where
  claim-IsShared : s.ring.tail + 1 < 2 ^ 64 → IsShared (record s { producer = claim_slot s.ring })
  claim-IsShared h = record {
    count = v.count;
    counted = v.counted;
    fits = v.fits;
    narrow = v.narrow;
    capacity = v.capacity;
    mask = v.mask;
    passed = v.passed;
    pushing = claim-Pushing s.ring s.offered v.count v.counted v.capacity h;
    popping = v.popping;
  }

  write-IsShared :
      (t : ℕ) (x : WorkItem)
      → Pushing s.ring s.offered (claimed t)
      → IsShared (record s { ring = write_item s.ring t x; producer = written t; offered = x })
  write-IsShared t x (e, h, k) = rw (write_item-lem s.ring t x v.mask e) (record {
    count = v.count;
    counted = v.counted;
    fits = v.fits;
    narrow = v.narrow;
    capacity = v.capacity;
    mask = v.mask;
    passed =
        v.passed
        ∙ ap (λ l. s.received ++ l)
            (sym (
              window-update s.ring.items s.ring.tail x s.ring.head v.count
                (omega (arith, v.counted)) h));
    pushing = (e, h, k, own);
    popping = Popping-write s.ring x s.consumer h v.popping;
  })
    where
      own : update s.ring.items (s.ring.tail % 4096) x (s.ring.tail % 4096) ≡ x
      own = let e : ((s.ring.tail % 4096) == (s.ring.tail % 4096)) ≡ true = ==_refl _ in rw e refl

  publish-IsShared :
      (t : ℕ)
      → Pushing s.ring s.offered (written t)
      → IsShared (record s {
        ring = publish s.ring t;
        producer = Producer.idle;
        sent = s.sent ++ s.offered ∷ [];
      })
  unfolding publish
  publish-IsShared t (e, h, k, x) =
      let next : add_size t 1 ≡ s.ring.tail + 1 = omega arith in
      let place : s.ring.tail ≡ s.ring.head + v.count = v.counted in
      rw next (record {
        count = suc v.count;
        counted = omega (arith, v.counted);
        fits = omega (arith, v.counted);
        narrow = k;
        capacity = v.capacity;
        mask = v.mask;
        passed =
            ap (λ l. l ++ s.offered ∷ []) v.passed
            ∙ append_assoc s.received (window s.ring.items s.ring.head v.count) (s.offered ∷ [])
            ∙ ap (λ l. s.received ++ l)
                (ap (λ y. window s.ring.items s.ring.head v.count ++ y ∷ [])
                    (sym x ∙ ap (λ i. s.ring.items (i % 4096)) place)
                  ∙ sym (window-snoc s.ring.items s.ring.head v.count));
        pushing = tt;
        popping = Popping-publish s.ring (s.ring.tail + 1) s.consumer (omega arith) v.popping;
      })

  copy-Popping : (h : ℕ) → Popping s.ring (loaded h) → Popping s.ring (copy_item s.ring h)
  unfolding copy_item
  copy-Popping h (e, k) = (
    e,
    k,
    ap s.ring.items (sym (ap (λ m. bit_and h m) v.mask ∙ bit_and-4095 h ∙ ap (λ i. i % 4096) e)),
  )

  free-IsShared :
      (h : ℕ) (x : WorkItem)
      → Popping s.ring (copied h x)
      → IsShared (record s {
        ring = free_slot s.ring h;
        consumer = Consumer.idle;
        received = s.received ++ x ∷ [];
      })
  unfolding free_slot
  free-IsShared h x (e, k, y) = shorter v.count v.counted v.fits v.passed
    where
      shorter :
          (n : ℕ)
          → s.ring.tail ≡ s.ring.head + n
          → n ≤ 4096
          → s.sent ≡ s.received ++ window s.ring.items s.ring.head n
          → IsShared (record s {
            ring = record (s.ring) { head = add_size h 1 };
            consumer = Consumer.idle;
            received = s.received ++ x ∷ [];
          })
      shorter zero c f p = absurd (omega arith)
      shorter (suc n) c f p =
          let next : add_size h 1 ≡ s.ring.head + 1 = omega (arith, v.narrow) in
          rw next (record {
            count = n;
            counted = omega arith;
            fits = omega arith;
            narrow = v.narrow;
            capacity = v.capacity;
            mask = v.mask;
            passed =
                p
                ∙ ap (λ z. s.received ++ z ∷ window s.ring.items (s.ring.head + 1) n) y
                ∙ sym (append_assoc s.received (x ∷ []) (window s.ring.items (s.ring.head + 1) n));
            pushing = Pushing-free s.ring s.offered s.producer v.pushing;
            popping = tt;
          })

Step-IsShared : {s t : Shared} → Step s t → IsShared s → IsShared t
Step-IsShared {s} (claim e h) v = claim-IsShared s v h
Step-IsShared {s} (write t x e) v =
    write-IsShared s v t x (subst (Pushing s.ring s.offered) e v.pushing)
Step-IsShared {s} (publish_tail t e) v =
    publish-IsShared s v t (subst (Pushing s.ring s.offered) e v.pushing)
Step-IsShared {s} (load e) v = record {
  count = v.count;
  counted = v.counted;
  fits = v.fits;
  narrow = v.narrow;
  capacity = v.capacity;
  mask = v.mask;
  passed = v.passed;
  pushing = v.pushing;
  popping = load-Popping s.ring v.count v.counted;
}
Step-IsShared {s} (copy h e) v = record {
  count = v.count;
  counted = v.counted;
  fits = v.fits;
  narrow = v.narrow;
  capacity = v.capacity;
  mask = v.mask;
  passed = v.passed;
  pushing = v.pushing;
  popping = copy-Popping s v h (subst (Popping s.ring) e v.popping);
}
Step-IsShared {s} (free h x e) v = free-IsShared s v h x (subst (Popping s.ring) e v.popping)

Reach-IsShared : {s : Shared} → Reach s → IsShared s
Reach-IsShared start = record {
  count = 0;
  counted = refl;
  fits = omega arith;
  narrow = omega arith;
  capacity = refl;
  mask = refl;
  passed = refl;
  pushing = tt;
  popping = tt;
}
Reach-IsShared (step r t) = Step-IsShared t (Reach-IsShared r)

-- However the accesses of one producer and one consumer to a new ring follow one another, as long as
-- the counters do not come round, what the consumer has received is the first part of what the
-- producer has sent, in order, and the rest, at most 4096 items, waits in the ring.
pub Reach-fifo :
    {s : Shared}
    → Reach s
    → (n : ℕ) × (n ≤ 4096)
      × (s.ring.tail ≡ s.ring.head + n)
      × (s.sent ≡ s.received ++ window s.ring.items s.ring.head n)
Reach-fifo r = let v = Reach-IsShared r in (v.count, v.fits, v.counted, v.passed)
