-- ===== src/TwinLane/Receiving.antt =====
-- `twin_lane_receive` and the counts of `twin_lane_get_duplex_metrics` of src/twin_lane.c.
use universal_multi_segmente.Prelude.{
  ℕ, ◌+◌, ◌-◌, ◌*◌, ◌/◌, ◌%◌, ◌^◌, Bool, ◌||◌, Option, none, some, List, ltb, leb, ◌==◌,
  if◌then◌else◌, add_size, sub_size, add32,
}
use universal_multi_segmente.Standalone.Bytes.{load, from_bytes}
use universal_multi_segmente.TwinLane.{
  Ring, null, freed, held, TwinLane, TwinManager, lane_at, put_lane,
}

abbrev pub max_slot_size : ℕ
max_slot_size = 4096

-- What a call leaves behind its result and its two pointers, which some of its ways do not write.
pub record Receipt : Type 0 where
  pub block : Option (List ℕ)
  pub size : Option ℕ
  pub sequence : Option ℕ

abbrev pub unwritten : Receipt
unwritten = record { block = none; size = none; sequence = none }

abbrev pub nothing : Receipt
nothing = record { block = none; size = some 0; sequence = some 0 }

unfoldable pub count_received : TwinLane → ℕ → TwinLane
count_received l size = record l {
  rx_tail = add_size l.rx_tail 1;
  rx_inflight = add32 l.rx_inflight 1;
  rx_messages = add_size l.rx_messages 1;
  rx_bytes = add_size l.rx_bytes size;
}

-- The header is read, and the data copied to a block, if `malloc` gives one.
unfoldable pub receive_message :
    TwinManager → ℕ → TwinLane → (ℕ → ℕ) → ℕ → ℕ → Bool → Receipt × TwinManager
receive_message m id l d at size allocated =
    if size == 0 || ltb (max_slot_size - 8 - 4) size
    then (nothing, put_lane m id (record l { rx_tail = add_size l.rx_tail 1 }))
    else if allocated
    then (
      record {
        block = some (load d (at + 12) size);
        size = some size;
        sequence = some (from_bytes (load d at 8) % 2 ^ 32);
      },
      put_lane m id (count_received l size),
    )
    else (nothing, m)

unfoldable pub receive_from :
    TwinManager → ℕ → TwinLane → Ring → ℕ → Bool → Option (Receipt × TwinManager)
receive_from m id l null at allocated = none
receive_from m id l freed at allocated = none
receive_from m id l (held d) at allocated =
    some (receive_message m id l d at (from_bytes (load d (at + 8) 4)) allocated)

-- `twin_lane_receive`, with whether its `malloc` gives a block.
unfoldable pub twin_lane_receive : TwinManager → ℕ → Bool → Option (Receipt × TwinManager)
twin_lane_receive m id allocated =
    if leb m.lane_count id
    then some (unwritten, m)
    else (let l = lane_at m id in
        if l.rx_capacity == 0
        then some (unwritten, m)
        else if leb l.rx_head l.rx_tail
        then some (nothing, m)
        else if l.rx_capacity / max_slot_size == 0
        then none
        else receive_from m id l l.rx_ring
            (l.rx_tail % (l.rx_capacity / max_slot_size) * max_slot_size) allocated)

-- The static variables of `twin_lane_get_duplex_metrics`, one set for all lanes.
pub record Sample : Type 0 where
  pub tx_messages : ℕ
  pub rx_messages : ℕ
  pub tx_bytes : ℕ
  pub rx_bytes : ℕ
  pub timestamp : ℕ

-- The integer fields of `struct duplex_metrics` that are rates.
pub record Rates : Type 0 where
  pub tx_messages_per_second : ℕ
  pub rx_messages_per_second : ℕ
  pub tx_bytes_per_second : ℕ
  pub rx_bytes_per_second : ℕ

-- What was counted since the last sample, for each second.
unfoldable pub rate : ℕ → ℕ → ℕ → ℕ
rate count last time_diff = (sub_size count last * 1000000) % 2 ^ 64 / time_diff

unfoldable pub sampled_rates : TwinLane → Sample → ℕ → Rates
sampled_rates l s time_diff = record {
  tx_messages_per_second = rate l.tx_messages s.tx_messages time_diff;
  rx_messages_per_second = rate l.rx_messages s.rx_messages time_diff;
  tx_bytes_per_second = rate l.tx_bytes s.tx_bytes time_diff;
  rx_bytes_per_second = rate l.rx_bytes s.rx_bytes time_diff;
}

unfoldable pub take_sample : TwinLane → ℕ → Sample
take_sample l now = record {
  tx_messages = l.tx_messages;
  rx_messages = l.rx_messages;
  tx_bytes = l.tx_bytes;
  rx_bytes = l.rx_bytes;
  timestamp = now;
}

-- The rates and the static variables; the rates are left where no time has passed.
unfoldable pub update_rates : TwinLane → Rates → Sample → ℕ → Rates × Sample
update_rates l r s now =
    let time_diff = sub_size now s.timestamp in
    if ltb 0 time_diff then (sampled_rates l s time_diff, take_sample l now) else (r, s)

-- The congestion levels; a window of 0 is divided by.
unfoldable pub congestion_level : ℕ → ℕ → Option ℕ
congestion_level inflight window =
    if window == 0 then none else some ((inflight * 100) % 2 ^ 32 / window)

-- `struct duplex_metrics` without its doubles.
pub record DuplexMetrics : Type 0 where
  pub rates : Rates
  pub tx_congestion_level : ℕ
  pub rx_congestion_level : ℕ

unfoldable pub metrics_of : Rates × Sample → Option ℕ → Option ℕ → Option (DuplexMetrics × Sample)
metrics_of (r, s) none rx = none
metrics_of (r, s) (some t) none = none
metrics_of (r, s) (some t) (some u) =
    some (record { rates = r; tx_congestion_level = t; rx_congestion_level = u }, s)

-- `twin_lane_get_duplex_metrics` at `now`, with what `metrics` and the static variables hold.
unfoldable pub twin_lane_get_duplex_metrics :
    TwinManager → ℕ → DuplexMetrics → Sample → ℕ → Option (DuplexMetrics × Sample)
twin_lane_get_duplex_metrics m id metrics s now =
    if leb m.lane_count id
    then some (metrics, s)
    else (let l = lane_at m id in
        metrics_of (update_rates l metrics.rates s now)
          (congestion_level l.tx_inflight l.tx_window_size)
          (congestion_level l.rx_inflight l.rx_window_size))
