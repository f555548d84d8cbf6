-- ===== src/TwinLane.antt =====
-- src/twin_lane.c and include/twin_lane.h: lanes with a ring for each direction. The latencies and the
-- efficiency, which are doubles, have no field. What C leaves undefined, a division by 0 or a second
-- free of one block, gives none.
pub mod Sending
pub mod Receiving
pub mod Slots
pub mod Windows
use universal_multi_segmente.Prelude.{
  ℕ, ◌-◌, ◌^◌, Bool, true, false, Option, none, some, List, leb, ◌==◌, if◌then◌else◌, add32, get_or,
  set, replicate,
}

-- A pointer to a ring: null, to a block that was freed, or to the bytes of a block.
pub data Ring : Type 0 where
  null freed : Ring
  held : (ℕ → ℕ) → Ring

pub record TwinLane : Type 0 where
  pub tx_head : ℕ
  pub tx_tail : ℕ
  pub rx_head : ℕ
  pub rx_tail : ℕ
  pub sync_sequence : ℕ
  pub flow_control_state : ℕ
  pub lane_id : ℕ
  pub peer_node_id : ℕ
  pub symmetric_bandwidth : Bool
  pub tx_ring : Ring
  pub rx_ring : Ring
  pub tx_capacity : ℕ
  pub rx_capacity : ℕ
  pub tx_messages : ℕ
  pub rx_messages : ℕ
  pub tx_bytes : ℕ
  pub rx_bytes : ℕ
  pub tx_window_size : ℕ
  pub rx_window_size : ℕ
  pub tx_inflight : ℕ
  pub rx_inflight : ℕ

-- The counters for round robin and the throughputs, which nothing but the initialisation writes, have
-- no field.
pub record TwinManager : Type 0 where
  pub lanes : List TwinLane
  pub lane_count : ℕ
  pub max_lanes : ℕ
  pub global_tx_sequence : ℕ
  pub global_rx_sequence : ℕ

abbrev pub blank_lane : TwinLane
blank_lane = record {
  tx_head = 0;
  tx_tail = 0;
  rx_head = 0;
  rx_tail = 0;
  sync_sequence = 0;
  flow_control_state = 0;
  lane_id = 0;
  peer_node_id = 0;
  symmetric_bandwidth = false;
  tx_ring = null;
  rx_ring = null;
  tx_capacity = 0;
  rx_capacity = 0;
  tx_messages = 0;
  rx_messages = 0;
  tx_bytes = 0;
  rx_bytes = 0;
  tx_window_size = 0;
  rx_window_size = 0;
  tx_inflight = 0;
  rx_inflight = 0;
}

abbrev pub lane_at : TwinManager → ℕ → TwinLane
lane_at m id = get_or m.lanes id blank_lane

abbrev pub put_lane : TwinManager → ℕ → TwinLane → TwinManager
put_lane m id l = record m { lanes = set m.lanes id l }

-- `twin_lane_init` where `calloc` gives a block, and `max_lanes` is not 0.
unfoldable pub twin_lane_init : ℕ → TwinManager
twin_lane_init max_lanes = record {
  lanes = replicate max_lanes blank_lane;
  lane_count = 0;
  max_lanes = max_lanes;
  global_tx_sequence = 0;
  global_rx_sequence = 0;
}

-- The result of a creation that failed, UINT32_MAX.
abbrev pub no_lane : ℕ
no_lane = 2 ^ 32 - 1

-- What is set before the rings are allocated.
abbrev pub started_lane : ℕ → ℕ → ℕ → ℕ → TwinLane
started_lane id peer tx rx = record blank_lane {
  lane_id = id;
  peer_node_id = peer;
  symmetric_bandwidth = tx == rx;
  tx_capacity = tx;
  rx_capacity = rx;
}

-- The lane after the allocations, by which of them gave a block.
unfoldable pub allocated_lane : TwinLane → Bool → Bool → TwinLane
allocated_lane l false rx_given = l
allocated_lane l true false = record l { tx_ring = freed }
allocated_lane l true true = record l {
  tx_ring = held (λ o. 0);
  rx_ring = held (λ o. 0);
  tx_window_size = 64;
  rx_window_size = 64;
}

-- `twin_lane_create`, with whether each `posix_memalign` gives a block.
unfoldable pub twin_lane_create : TwinManager → ℕ → ℕ → ℕ → Bool → Bool → ℕ × TwinManager
twin_lane_create m peer tx rx tx_given rx_given =
    if leb m.max_lanes m.lane_count
    then (no_lane, m)
    else let id = m.lane_count in
      (
        if tx_given then (if rx_given then id else no_lane) else no_lane,
        put_lane (record m { lane_count = add32 m.lane_count 1 }) id
            (allocated_lane (started_lane id peer tx rx) tx_given rx_given),
      )

-- `if (ring) free_aligned(ring)`, and the pointer is cleared.
unfoldable pub free_ring : Ring → Option Ring
free_ring null = some null
free_ring freed = none
free_ring (held d) = some null

unfoldable pub destroyed_lane : TwinLane → Option Ring → Option Ring → Option TwinLane
destroyed_lane l none rx = none
destroyed_lane l (some t) none = none
destroyed_lane l (some t) (some r) =
    some (record l { tx_ring = t; rx_ring = r; tx_capacity = 0; rx_capacity = 0 })

unfoldable pub with_lane : TwinManager → ℕ → Option TwinLane → Option (Bool × TwinManager)
with_lane m id none = none
with_lane m id (some l) = some (true, put_lane m id l)

unfoldable pub twin_lane_destroy_lane : TwinManager → ℕ → Option (Bool × TwinManager)
twin_lane_destroy_lane m id =
    if leb m.lane_count id
    then some (false, m)
    else let l = lane_at m id in
      with_lane m id (destroyed_lane l (free_ring l.tx_ring) (free_ring l.rx_ring))
