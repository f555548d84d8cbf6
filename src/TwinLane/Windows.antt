-- ===== src/TwinLane/Windows.antt =====
-- What any calls of src/twin_lane.c leave of a manager's lanes.
use universal_multi_segmente.Prelude.{
  ℕ, zero, suc, ◌*◌, ◌%◌, ◌^◌, ◌≤◌, ◌<◌, ◌≡◌, refl, sym, ap, subst, inl, inr, Bool, true, false,
  ◌||◌, Option, none, some, List, [], ◌∷◌, arith, ltb, leb, ◌==◌, le→leb, Bool-cases, if◌then◌else◌,
  add_size, add32, sub32, length, get_or, length-set, replicate, length-replicate, All, All-set,
}
use mathlib.Core.Option.{some-injective}
use universal_multi_segmente.TwinLane.{
  Ring, null, freed, held, TwinLane, TwinManager, blank_lane, lane_at, put_lane, twin_lane_init,
  started_lane, allocated_lane, twin_lane_create, destroyed_lane, with_lane, twin_lane_destroy_lane,
}
use universal_multi_segmente.TwinLane.Sending.{
  slot_size, count_sent, send_to, send_slot, twin_lane_send, adapted_window, acknowledged,
  twin_lane_update_flow_control,
}
use universal_multi_segmente.TwinLane.Receiving.{Receipt, unwritten, nothing, twin_lane_receive}

-- Nothing has arrived on the lane, and its window and what is in flight have their bounds.
pub record IsLane (l : TwinLane) : Type 0 where
  pub unmoved : l.rx_head ≡ 0
  pub window : l.tx_window_size ≤ 257
  pub inflight : l.tx_inflight ≤ 257

pub record IsManager (m : TwinManager) : Type 0 where
  pub lanes : All IsLane m.lanes
  pub counted : m.lane_count ≤ m.max_lanes
  pub sized : length m.lanes ≡ m.max_lanes
  pub narrow : m.max_lanes < 2 ^ 32

blank-IsLane : IsLane blank_lane
blank-IsLane = record { unmoved = refl; window = omega arith; inflight = omega arith }

All-replicate : (n : ℕ) → All IsLane (replicate n blank_lane)
All-replicate zero = tt
All-replicate (suc n) = (blank-IsLane, All-replicate n)

All-get_or : (ls : List TwinLane) (i : ℕ) → All IsLane ls → IsLane (get_or ls i blank_lane)
All-get_or [] i h = blank-IsLane
All-get_or (l ∷ ls) zero h = h.0
All-get_or (l ∷ ls) (suc i) h = All-get_or ls i h.1

put_lane-IsManager :
    (m : TwinManager) (id : ℕ) (l : TwinLane) → IsManager m → IsLane l → IsManager (put_lane m id l)
put_lane-IsManager m id l v w = record {
  lanes = All-set IsLane m.lanes id l v.lanes w;
  counted = v.counted;
  sized = omega (arith, length-set m.lanes id l, v.sized);
  narrow = v.narrow;
}

-- What a call gives, if it gives anything, is well-formed.
abbrev Kept : {A : Type 0} → Option (A × TwinManager) → Type 0
Kept none = Unit
Kept (some (a, m)) = IsManager m

module _ (m : TwinManager) (v : IsManager m) where
  allocated_lane-IsLane :
      (l : TwinLane) (t r : Bool) → IsLane l → l.tx_inflight ≡ 0 → IsLane (allocated_lane l t r)
  unfolding allocated_lane
  allocated_lane-IsLane l false r w e = w
  allocated_lane-IsLane l true false w e = record {
    unmoved = w.unmoved;
    window = w.window;
    inflight = w.inflight;
  }
  allocated_lane-IsLane l true true w e = record {
    unmoved = w.unmoved;
    window = omega arith;
    inflight = w.inflight;
  }

  create-IsManager : (peer tx rx : ℕ) (t r : Bool) → IsManager (twin_lane_create m peer tx rx t r).1
  unfolding twin_lane_create
  create-IsManager peer tx rx t r = elim (Bool-cases (leb m.max_lanes m.lane_count)) [
    | inl e ↦ rw e v
    | inr e ↦ rw e (
        put_lane-IsManager (record m { lane_count = add32 m.lane_count 1 }) m.lane_count _
          (record {
            lanes = v.lanes;
            counted = ground (arith, v.counted, v.narrow);
            sized = v.sized;
            narrow = v.narrow;
          })
          (allocated_lane-IsLane (started_lane m.lane_count peer tx rx) t r
            (record { unmoved = refl; window = omega arith; inflight = omega arith }) refl))
  ]

  destroyed-Kept :
      (id : ℕ) (l : TwinLane) (t r : Option Ring)
      → IsLane l
      → Kept (with_lane m id (destroyed_lane l t r))
  unfolding with_lane destroyed_lane
  destroyed-Kept id l none r w = tt
  destroyed-Kept id l (some t) none w = tt
  destroyed-Kept id l (some t) (some r) w =
      put_lane-IsManager m id _ v
        (record { unmoved = w.unmoved; window = w.window; inflight = w.inflight })

  lane_at-IsLane : (id : ℕ) → IsLane (lane_at m id)
  lane_at-IsLane id = All-get_or m.lanes id v.lanes

  destroy_lane-Kept : (id : ℕ) → Kept (twin_lane_destroy_lane m id)
  unfolding twin_lane_destroy_lane
  destroy_lane-Kept id = elim (Bool-cases (leb m.lane_count id)) [
    | inl e ↦ rw e v
    | inr e ↦ rw e (destroyed-Kept id (lane_at m id) _ _ (lane_at-IsLane id))
  ]

  send_to-Kept :
      (id : ℕ) (l : TwinLane) (ring : Ring) (at sequence : ℕ) (message : List ℕ)
      → IsLane l
      → l.tx_inflight < l.tx_window_size
      → Kept (send_to m id l ring at sequence message)
  unfolding send_to count_sent
  send_to-Kept id l null at sequence message w h = tt
  send_to-Kept id l freed at sequence message w h = tt
  send_to-Kept id l (held d) at sequence message w h =
      let k = put_lane-IsManager m id (count_sent l _ (length message)) v (record {
        unmoved = w.unmoved;
        window = w.window;
        inflight = omega (arith, w.window, h);
      }) in
      record { lanes = k.lanes; counted = k.counted; sized = k.sized; narrow = k.narrow }

  send_slot-Kept :
      (id : ℕ) (l : TwinLane) (slots sequence : ℕ) (message : List ℕ)
      → IsLane l
      → l.tx_inflight < l.tx_window_size
      → Kept (send_slot m id l slots sequence message)
  unfolding send_slot
  send_slot-Kept id l slots sequence message w h = elim (Bool-cases (slots == 0)) [
    | inl e ↦ rw e tt
    | inr e ↦ rw e (checked (ltb l.tx_capacity _))
  ]
    where
      moved-IsLane : IsLane (record l { tx_head = add_size l.tx_head 1 })
      moved-IsLane = record { unmoved = w.unmoved; window = w.window; inflight = w.inflight }

      checked :
          (t : Bool)
          → Kept (
              if t
              then some (false, put_lane m id (record l { tx_head = add_size l.tx_head 1 }))
              else send_to m id
                  (record l { tx_head = add_size l.tx_head 1 })
                  l.tx_ring
                  ((l.tx_head % slots * slot_size (length message)) % 2 ^ 64)
                  sequence
                  message)
      checked true = put_lane-IsManager m id _ v moved-IsLane
      checked false = send_to-Kept id _ l.tx_ring _ sequence message moved-IsLane h

  send-Kept :
      (id : ℕ) (message : List ℕ) (sequence : ℕ) → Kept (twin_lane_send m id message sequence)
  unfolding twin_lane_send
  send-Kept id message sequence = elim (Bool-cases (leb m.lane_count id || length message == 0)) [
    | inl e ↦ rw e v
    | inr e ↦
        rw e
          (elim (Bool-cases (
            (lane_at m id).tx_capacity == 0
            || leb (lane_at m id).tx_window_size (lane_at m id).tx_inflight)) [
              | inl f ↦ rw f v
              | inr f ↦ rw f (
                  send_slot-Kept id (lane_at m id) _ sequence message (lane_at-IsLane id)
                    (ground arith))
            ])
  ]

  adapted_window-le : (last now window : ℕ) → window ≤ 257 → adapted_window last now window ≤ 257
  unfolding adapted_window
  adapted_window-le last now window h = ground arith

  acknowledge-IsManager :
      (last now id ack_sequence : ℕ)
      → IsManager (twin_lane_update_flow_control m last now id ack_sequence).0
  unfolding twin_lane_update_flow_control acknowledged
  acknowledge-IsManager last now id ack_sequence = elim (Bool-cases (leb m.lane_count id)) [
    | inl e ↦ rw e v
    | inr e ↦ rw e (
        put_lane-IsManager m id _ v (record {
          unmoved = (lane_at-IsLane id).unmoved;
          window =
              adapted_window-le last now (lane_at m id).tx_window_size (lane_at-IsLane id).window;
          inflight = one_less (lane_at m id).tx_inflight (lane_at-IsLane id).inflight;
        }))
  ]
    where
      one_less : (n : ℕ) → n ≤ 257 → (if ltb 0 n then sub32 n 1 else n) ≤ 257
      one_less n h = ground arith

  -- Whatever is asked for, nothing is received, and nothing changes.
  receive-nothing :
      (id : ℕ) (allocated : Bool)
      → (r : Receipt) × (twin_lane_receive m id allocated ≡ some (r, m)) × (r.block ≡ none)
  unfolding twin_lane_receive
  receive-nothing id allocated = elim (Bool-cases (leb m.lane_count id)) [
    | inl e ↦ (unwritten, rw e refl, refl)
    | inr e ↦ elim (Bool-cases ((lane_at m id).rx_capacity == 0)) [
      | inl f ↦ (unwritten, rw (e, f) refl, refl)
      | inr f ↦ (
        nothing,
        rw
            (
              e,
              f,
              le→leb (lane_at m id).rx_head (lane_at m id).rx_tail
                  (omega (arith, (lane_at-IsLane id).unmoved)),
            )
            refl,
        refl,
      )
    ]
  ]

-- One call on a manager, where it does not end in undefined behaviour.
pub data Call (m : TwinManager) : TwinManager → Type 0 where
  create :
      (peer tx rx : ℕ) (tx_given rx_given : Bool)
      → Call m (twin_lane_create m peer tx rx tx_given rx_given).1
  destroy_lane :
      {m' : TwinManager} (id : ℕ) (done : Bool)
      → twin_lane_destroy_lane m id ≡ some (done, m')
      → Call m m'
  send :
      {m' : TwinManager} (id : ℕ) (message : List ℕ) (sequence : ℕ) (accepted : Bool)
      → twin_lane_send m id message sequence ≡ some (accepted, m')
      → Call m m'
  receive :
      {m' : TwinManager} (id : ℕ) (allocated : Bool) (r : Receipt)
      → twin_lane_receive m id allocated ≡ some (r, m')
      → Call m m'
  acknowledge :
      (last now id ack_sequence : ℕ)
      → Call m (twin_lane_update_flow_control m last now id ack_sequence).0

pub data Reach : TwinManager → Type 0 where
  init : (max_lanes : ℕ) → max_lanes < 2 ^ 32 → Reach (twin_lane_init max_lanes)
  call : {m m' : TwinManager} → Reach m → Call m m' → Reach m'

Kept-some :
    {A : Type 0} (o : Option (A × TwinManager)) (a : A) (m : TwinManager)
    → Kept o
    → o ≡ some (a, m)
    → IsManager m
Kept-some none a m k e = cc
Kept-some (some (b, n)) a m k e = subst IsManager (ap (λ p. p.1) (some-injective (b, n) (a, m) e)) k

Call-IsManager : {m m' : TwinManager} → IsManager m → Call m m' → IsManager m'
Call-IsManager {m} v (create peer tx rx t r) = create-IsManager m v peer tx rx t r
Call-IsManager {m} {m'} v (destroy_lane id done e) =
    Kept-some (twin_lane_destroy_lane m id) done m' (destroy_lane-Kept m v id) e
Call-IsManager {m} {m'} v (send id message sequence accepted e) =
    Kept-some (twin_lane_send m id message sequence) accepted m' (send-Kept m v id message sequence)
      e
Call-IsManager {m} {m'} v (receive id allocated r e) =
    let (r', f, g) = receive-nothing m v id allocated in
    Kept-some (twin_lane_receive m id allocated) r m' (subst Kept (sym f) v) e
Call-IsManager {m} v (acknowledge last now id ack_sequence) =
    acknowledge-IsManager m v last now id ack_sequence

Reach-IsManager : {m : TwinManager} → Reach m → IsManager m
unfolding twin_lane_init
Reach-IsManager (init max_lanes h) = record {
  lanes = All-replicate max_lanes;
  counted = omega arith;
  sized = length-replicate max_lanes blank_lane;
  narrow = h;
}
Reach-IsManager (call r c) = Call-IsManager (Reach-IsManager r) c

-- After any calls, however many lanes and acknowledgements, no lane has a window of more than 257
-- messages, nor more than 257 in flight, and no more lanes are in use than the manager has.
pub Reach-bounds :
    {m : TwinManager}
    → Reach m
    → (id : ℕ)
    → ((lane_at m id).tx_window_size ≤ 257)
      × ((lane_at m id).tx_inflight ≤ 257)
      × (m.lane_count ≤ m.max_lanes)
Reach-bounds {m} r id =
    let v = Reach-IsManager r in let w = lane_at-IsLane m v id in (w.window, w.inflight, v.counted)

-- Nothing ever moves the head of a receiving ring: after any calls a receive on any lane gives no
-- message, and changes nothing.
pub receive_starves :
    {m : TwinManager}
    → Reach m
    → (id : ℕ) (allocated : Bool)
    → (r : Receipt) × (twin_lane_receive m id allocated ≡ some (r, m)) × (r.block ≡ none)
receive_starves {m} r id allocated = receive-nothing m (Reach-IsManager r) id allocated
