-- ===== src/FastLane/Routing.antt =====
-- Which lane src/fast_lane.c selects, and whether the lane then takes the message.
use universal_multi_segmente.Prelude.{
  ℕ, ◌*◌, ◌%◌, ◌≤◌, ◌<◌, ◌≡◌, refl, ap, inl, inr, Bool, true, false, List, [], ◌∷◌, arith, leb,
  lt→leb, leb→le, leb→gt, Bool-cases, length,
}
use universal_multi_segmente.FastLane.Slots.{submit-free}
use universal_multi_segmente.FastLane.{
  LaneType, express, bulk, priority, streaming, lane_slot_size, lane_capacity, init_lane,
  select_optimal, is_free, submit,
}

-- Below rank 3, the selected lane has slots for every message of at most 64 KB.
select_optimal-fits :
    (size rank : ℕ) (critical : Bool)
    → rank < 3
    → size ≤ 64 * 1024
    → size ≤ lane_slot_size (select_optimal size rank critical)
unfolding select_optimal
select_optimal-fits size rank false h k = rw (lt→leb 3 rank h) (elim (Bool-cases (leb 4096 size)) [
  | inl b ↦ rw b k
  | inr b ↦ rw b (omega (arith, leb→gt 4096 size b))
])
select_optimal-fits size rank true h k = rw (lt→leb 3 rank h) (elim (Bool-cases (leb size 256)) [
  | inl a ↦ rw a (leb→le size 256 a)
  | inr a ↦ rw a (elim (Bool-cases (leb 4096 size)) [
    | inl b ↦ rw b k
    | inr b ↦ rw b (omega (arith, leb→gt 4096 size b))
  ])
])

first_slot-is_free :
    (t : LaneType) → is_free (0 % lane_capacity t) (lane_capacity t) (0 ∷ []) ≡ true
unfolding is_free
first_slot-is_free express = refl
first_slot-is_free bulk = refl
first_slot-is_free priority = refl
first_slot-is_free streaming = refl

submit-fresh :
    (t : LaneType) (message : List ℕ)
    → 0 < length message
    → length message ≤ lane_slot_size t
    → (submit (init_lane t) (0 ∷ []) message).0 ≡ true
unfolding init_lane
submit-fresh t message h k =
    ap (λ r. r.0) (submit-free (init_lane t) (0 ∷ []) message h k (first_slot-is_free t))

-- A new lane takes what is routed to it: a message of 1 byte to 64 KB with a rank below 3, submitted
-- to the lane that is selected for it, is accepted.
pub select-submit :
    (message : List ℕ) (rank : ℕ) (critical : Bool)
    → rank < 3
    → 0 < length message
    → length message ≤ 64 * 1024
    → (submit (init_lane (select_optimal (length message) rank critical)) (0 ∷ []) message).0 ≡ true
select-submit message rank critical h p k =
    submit-fresh (select_optimal (length message) rank critical) message p
      (select_optimal-fits (length message) rank critical h k)
