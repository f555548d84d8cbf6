-- ===== src/Parallel/Interleaving.antt =====
-- One producer and one consumer on a ring of include/parallel_throughput_engine.h, with their accesses
-- to it in any order.
use universal_multi_segmente.Prelude.{
  ℕ, zero, suc, ◌+◌, ◌%◌, ◌^◌, ◌≤◌, ◌<◌, ◌≡◌, refl, ap, ◌∙◌, inl, inr, false, List, [], ◌∷◌, ◌++◌,
  arith, ltb, ◌==◌, Bool-cases, add_size, sub_size, update,
}
use universal_multi_segmente.Parallel.{
  WorkItem, RingBuffer, Producer, claimed, written, Consumer, loaded, copied, claim_slot,
  write_item, publish, load_head, copy_item, free_slot,
}
use universal_multi_segmente.Parallel.Engine.{blank_item, empty_ring}

-- The ring, how far the two calls are, the item that is being pushed, and what all the pushes and all
-- the pops that came to their end have passed.
pub record Shared : Type 0 where
  pub ring : RingBuffer
  pub producer : Producer
  pub consumer : Consumer
  pub offered : WorkItem
  pub sent : List WorkItem
  pub received : List WorkItem

-- One access, or the two loads of one call. The counters do not come round.
pub data Step (s : Shared) : Shared → Type 0 where
  claim :
      s.producer ≡ Producer.idle
      → s.ring.tail + 1 < 2 ^ 64
      → Step s (record s { producer = claim_slot s.ring })
  write :
      (t : ℕ) (item : WorkItem)
      → s.producer ≡ claimed t
      → Step s (record s { ring = write_item s.ring t item; producer = written t; offered = item })
  publish_tail :
      (t : ℕ)
      → s.producer ≡ written t
      → Step s (record s {
        ring = publish s.ring t;
        producer = Producer.idle;
        sent = s.sent ++ s.offered ∷ [];
      })
  load : s.consumer ≡ Consumer.idle → Step s (record s { consumer = load_head s.ring })
  copy : (h : ℕ) → s.consumer ≡ loaded h → Step s (record s { consumer = copy_item s.ring h })
  free :
      (h : ℕ) (item : WorkItem)
      → s.consumer ≡ copied h item
      → Step s (record s {
        ring = free_slot s.ring h;
        consumer = Consumer.idle;
        received = s.received ++ item ∷ [];
      })

-- A new ring that nobody uses yet.
abbrev pub fresh : Shared
fresh = record {
  ring = empty_ring;
  producer = Producer.idle;
  consumer = Consumer.idle;
  offered = blank_item;
  sent = [];
  received = [];
}

pub data Reach : Shared → Type 0 where
  start : Reach fresh
  step : {s t : Shared} → Reach s → Step s t → Reach t

-- The `n` items from index `h` on.
abbrev pub window : (ℕ → WorkItem) → ℕ → ℕ → List WorkItem
window items h zero = []
window items h (suc n) = items (h % 4096) ∷ window items (h + 1) n

pub window-snoc :
    (items : ℕ → WorkItem) (h n : ℕ)
    → window items h (suc n) ≡ window items h n ++ items ((h + n) % 4096) ∷ []
window-snoc items h zero = ap (λ i. items (i % 4096) ∷ []) (omega arith)
window-snoc items h (suc n) =
    ap (λ l. items (h % 4096) ∷ l)
      (window-snoc items (h + 1) n
        ∙ ap (λ i. window items (h + 1) n ++ items (i % 4096) ∷ []) (omega arith))

pub apart : (i t : ℕ) → i < t → t < i + 4096 → ((i % 4096) == (t % 4096)) ≡ false
apart i t h k = ground arith

pub window-update :
    (items : ℕ → WorkItem) (t : ℕ) (x : WorkItem) (h n : ℕ)
    → h + n ≤ t
    → t < h + 4096
    → window (update items (t % 4096) x) h n ≡ window items h n
window-update items t x h zero p q = refl
window-update items t x h (suc n) p q =
    rw (apart h t (omega arith) q, window-update items t x (h + 1) n (omega arith) (omega arith))
      refl

-- What a push knows of the ring between its accesses.
abbrev pub Pushing : RingBuffer → WorkItem → Producer → Type 0
Pushing r x Producer.idle = Unit {0}
Pushing r x (claimed t) = (t ≡ r.tail) × (r.tail < r.head + 4096) × (r.tail + 1 < 2 ^ 64)
Pushing r x (written t) =
    (t ≡ r.tail) × (r.tail < r.head + 4096) × (r.tail + 1 < 2 ^ 64) × (r.items (r.tail % 4096) ≡ x)

-- What a pop knows of it.
abbrev pub Popping : RingBuffer → Consumer → Type 0
Popping r Consumer.idle = Unit {0}
Popping r (loaded h) = (h ≡ r.head) × (r.head < r.tail)
Popping r (copied h x) = (h ≡ r.head) × (r.head < r.tail) × (r.items (r.head % 4096) ≡ x)

pub record IsShared (s : Shared) : Type 0 where
  pub count : ℕ
  pub counted : s.ring.tail ≡ s.ring.head + count
  pub fits : count ≤ 4096
  pub narrow : s.ring.tail < 2 ^ 64
  pub capacity : s.ring.capacity ≡ 4096
  pub mask : s.ring.mask ≡ 4095
  pub passed : s.sent ≡ s.received ++ window s.ring.items s.ring.head count
  pub pushing : Pushing s.ring s.offered s.producer
  pub popping : Popping s.ring s.consumer

pub claim-Pushing :
    (r : RingBuffer) (x : WorkItem) (n : ℕ)
    → r.tail ≡ r.head + n
    → r.capacity ≡ 4096
    → r.tail + 1 < 2 ^ 64
    → Pushing r x (claim_slot r)
unfolding claim_slot
claim-Pushing r x n e c k =
    elim (Bool-cases (ltb r.capacity (sub_size (add_size r.tail 1) r.head))) [
      | inl f ↦ rw f tt
      | inr f ↦ rw f (refl, ground arith, k)
    ]

pub load-Popping : (r : RingBuffer) (n : ℕ) → r.tail ≡ r.head + n → Popping r (load_head r)
unfolding load_head
load-Popping r n e = elim (Bool-cases (r.head == r.tail)) [
  | inl f ↦ rw f tt
  | inr f ↦ rw f (refl, ground arith)
]
