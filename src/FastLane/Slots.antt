-- ===== src/FastLane/Slots.antt =====
-- The slots of a lane of src/fast_lane.c: what a submission stores and what a drain finds.
use universal_multi_segmente.Prelude.{
  ℕ, zero, suc, ◌+◌, ◌*◌, ◌%◌, ◌^◌, ◌≤◌, ◌<◌, ◌≡◌, refl, sym, ap, subst, Bool, true, false, ◌||◌,
  none, List, [], ◌∷◌, arith, ltb, ge→ltb, lt→leb, le→leb, ◌==◌, add_size, sub_size, add32, length,
  All,
}
use native.Mathlib.Nat.{mod-eq_of_lt, mod-lt}
use universal_multi_segmente.Standalone.Bytes.{store, load, from_bytes, take, load-store_self}
use universal_multi_segmente.FastLane.{FastLane, is_free, fill_slot, submit, drain_sized, drain}

==_zero : (n : ℕ) → 0 < n → (n == 0) ≡ false
==_zero n h = ground arith

pub submit-free :
    (l : FastLane) (tails message : List ℕ)
    → 0 < length message
    → length message ≤ l.slot_size
    → is_free (l.head % l.capacity) l.capacity tails ≡ true
    → submit l tails message
      ≡ (true, fill_slot (record l { head = add_size l.head 1 }) (l.head % l.capacity) message)
unfolding submit
submit-free l tails message p h f =
    rw (==_zero (length message) p, ge→ltb l.slot_size (length message) h, f) refl

-- Every tail that is read is past the first lap.
abbrev pub Lapped : ℕ → List ℕ → Type 0
Lapped capacity tails = All (λ t. (capacity ≤ t) × (t < 2 ^ 63)) tails

is_free-Lapped :
    (slot capacity : ℕ) (tails : List ℕ)
    → slot < capacity
    → capacity < 2 ^ 32
    → Lapped capacity tails
    → is_free slot capacity tails ≡ false
unfolding is_free
is_free-Lapped slot capacity [] h k v = refl
is_free-Lapped slot capacity (t ∷ ts) h k v =
    rw (le→leb capacity (sub_size slot t) (omega (arith, v.0)))
      (is_free-Lapped slot capacity ts h k v.1)

-- Once as many messages were drained from a lane as it has slots, no submission is accepted any
-- more, however the tail moves while it waits, and even if the lane is empty; the head moves all the
-- same.
pub submit_stalls :
    (l : FastLane) (tails message : List ℕ)
    → 0 < l.capacity
    → l.capacity < 2 ^ 32
    → Lapped l.capacity tails
    → 0 < length message
    → length message ≤ l.slot_size
    → submit l tails message ≡ (false, record l { head = add_size l.head 1 })
unfolding submit
submit_stalls l tails message c k v p h =
    rw
      (
        ==_zero (length message) p,
        ge→ltb l.slot_size (length message) h,
        is_free-Lapped (l.head % l.capacity) l.capacity tails (mod-lt l.head c) k v,
      )
      refl

take-load : (d : ℕ → ℕ) (o n k : ℕ) → n ≤ k → take (load d o k) n ≡ load d o n
unfolding load take
take-load d o zero k h = refl
take-load d o (suc n) zero h = absurd (omega arith)
take-load d o (suc n) (suc k) h = ap (λ bs. d o ∷ bs) (take-load d (o + 1) n k (omega arith))

load-prefix :
    (d : ℕ → ℕ) (o n : ℕ) (bs : List ℕ) → n ≤ length bs → load (store d o bs) o n ≡ take bs n
load-prefix d o n bs h =
    subst (λ x. load (store d o bs) o n ≡ take x n) (load-store_self d o bs)
      (sym (take-load (store d o bs) o n (length bs) h))

-- A lane in its first lap from which everything was drained.
pub record IsDrained (l : FastLane) : Type 0 where
  pub drained : l.tail ≡ l.head
  pub first_lap : l.head < l.capacity
  pub narrow : l.capacity < 2 ^ 32
  pub slots : 4 ≤ l.slot_size
  pub slots_fit : l.slot_size < 2 ^ 32

drain-refused :
    (l : FastLane) (allocated : Bool) (w : ℕ)
    → l.tail < l.head
    → from_bytes (load l.bytes (l.tail % l.capacity * l.slot_size) 4) ≡ w
    → (w == 0 || ltb (sub_size l.slot_size 4) w) ≡ true
    → drain l allocated ≡ (none, record l { tail = add_size l.tail 1 })
unfolding drain drain_sized
drain-refused l allocated w h e r = rw (lt→leb l.head l.tail h, e, r) refl

module _ {l : FastLane} (v : IsDrained l) (message : List ℕ) where
  abbrev filled : FastLane
  filled = fill_slot (record l { head = add_size l.head 1 }) (l.head % l.capacity) message

  own_slot-is_free : is_free (l.head % l.capacity) l.capacity (l.tail ∷ []) ≡ true
  unfolding is_free
  own_slot-is_free = rw (mod-eq_of_lt v.first_lap) (
      rw
        (lt→leb l.capacity (sub_size l.head l.tail)
          (omega (arith, v.drained, v.first_lap, v.narrow)))
        refl)

  prefix-filled :
      4 ≤ length message
      → from_bytes (load filled.bytes (filled.tail % filled.capacity * filled.slot_size) 4)
        ≡ from_bytes (take message 4)
  unfolding fill_slot
  prefix-filled h =
      subst
        (λ t.
          from_bytes (load filled.bytes (t % l.capacity * l.slot_size) 4)
          ≡ from_bytes (take message 4))
        (sym v.drained)
        (ap from_bytes (load-prefix l.bytes (l.head % l.capacity * l.slot_size) 4 message h))

-- A submission copies the message alone, and a drain takes the first four bytes of the slot for the
-- size of what follows: a message that is submitted to an empty lane in its first lap is accepted,
-- but if its own first four bytes, read as a number, are 0 or more than the slot has left, the drain
-- returns nothing, the message is gone, and it goes on counting as one in the lane.
pub submit-drain_dropped :
    (l : FastLane) (message : List ℕ) (allocated : Bool)
    → IsDrained l
    → 4 ≤ length message
    → length message ≤ l.slot_size
    → (from_bytes (take message 4) == 0
        || ltb (sub_size l.slot_size 4) (from_bytes (take message 4)))
      ≡ true
    → let (accepted, l') = submit l (l.tail ∷ []) message in
      let (block, l'') = drain l' allocated in
      (accepted ≡ true)
      × (block ≡ none)
      × (l''.tail ≡ l''.head)
      × (l''.message_count ≡ add32 l.message_count 1)
unfolding fill_slot
submit-drain_dropped l message allocated v p h r =
    rw (submit-free l (l.tail ∷ []) message (omega arith) h (own_slot-is_free v message)) (
      rw
        (drain-refused (filled v message) allocated (from_bytes (take message 4))
          (omega (arith, v.drained, v.first_lap, v.narrow)) (prefix-filled v message p) r)
        (refl, refl, ap (λ t. add_size t 1) v.drained, refl))
