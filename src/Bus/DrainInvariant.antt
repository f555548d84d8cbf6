-- ===== src/Bus/DrainInvariant.antt =====
-- `umsbb_drain_from` keeps the bus well-formed, and what holds from `umsbb_init` on.
use universal_multi_segmente.Prelude.{
  ℕ, inl, inr, Bool, Option, none, some, leb, Bool-cases, Option-cases, get_elem?, All-get,
}
use universal_multi_segmente.Capsule.{Memory, MessageCapsule, capsule_validate}
use universal_multi_segmente.BiBuffer.{BiBuffer}
use universal_multi_segmente.Gpu.{GpuDriver}
use universal_multi_segmente.BiBuffer.{read, release}
use universal_multi_segmente.BiBuffer.Invariant.{read-some}
use universal_multi_segmente.Bus.{Bus}
use universal_multi_segmente.Bus.Drain.{
  has_more_data, clear_if_idle, drain_payload, drain_capsule, drain_stored, drain_answered,
  drain_lane, umsbb_drain_from,
}
use universal_multi_segmente.Bus.Lanes.{IsLane, release-IsLane}
use universal_multi_segmente.Bus.Invariant.{
  IsBus, log-IsBus, put_buffer-IsBus, count_operation-IsBus, batched-IsBus, signalled-IsBus,
}

clear_if_idle-IsBus : {bus : Bus} → IsBus bus → IsBus (clear_if_idle bus)
unfolding clear_if_idle
clear_if_idle-IsBus {bus} v = elim (Bool-cases (has_more_data bus.ring.buffers)) [
  | inl more ↦ rw more v
  | inr done ↦ rw done (signalled-IsBus v _)
]

module _ {bus : Bus} (d : GpuDriver) (m : Memory) (now lane : ℕ) (b : BiBuffer) (c : MessageCapsule)
    (v : IsBus bus) (l : IsLane (release b)) where
  drain_payload-IsBus : IsBus (drain_payload d m now bus lane b c).2
  unfolding drain_payload
  drain_payload-IsBus =
      clear_if_idle-IsBus
        (count_operation-IsBus (put_buffer-IsBus (log-IsBus (batched-IsBus v _) _ _ _ now) lane l))

  drain_capsule-IsBus : (allocated : Bool) → IsBus (drain_capsule d m allocated now bus lane b c).2
  unfolding drain_capsule
  drain_capsule-IsBus allocated = elim (Bool-cases (capsule_validate m c)) [
    | inl valid ↦ rw valid (elim (Bool-cases allocated) [
      | inl got ↦ rw got drain_payload-IsBus
      | inr failed ↦ rw failed (put_buffer-IsBus (log-IsBus v _ _ _ now) lane l)
    ])
    | inr corrupt ↦ rw corrupt (put_buffer-IsBus (log-IsBus v _ _ _ now) lane l)
  ]

drain_stored-IsBus :
    {bus : Bus} (d : GpuDriver) (m : Memory) (allocated : Bool) (now lane : ℕ) (b : BiBuffer)
    (o : Option MessageCapsule)
    → IsBus bus
    → IsLane (release b)
    → IsBus (drain_stored d m allocated now bus lane b o).2
unfolding drain_stored
drain_stored-IsBus d m allocated now lane b none v l = v
drain_stored-IsBus d m allocated now lane b (some c) v l =
    drain_capsule-IsBus d m now lane b c v l allocated

drain_lane-IsBus :
    {bus : Bus} (d : GpuDriver) (m : Memory) (allocated : Bool) (now lane : ℕ) {b : BiBuffer}
    → IsBus bus
    → IsLane b
    → IsBus (drain_lane d m allocated now bus lane b).2
unfolding drain_lane drain_answered
drain_lane-IsBus {bus} d m allocated now lane {b} v l = elim (Option-cases (read b)) [
  | inl e ↦ rw (e, drain_answered) (log-IsBus v _ _ _ now)
  | inr ((o, n), e) ↦
      rw (e, drain_answered)
        (drain_stored-IsBus d m allocated now lane b (b.region_a o) v
          (release-IsLane l (read-some b e).2))
]

-- Whatever a drain meets, it leaves a well-formed bus.
pub drain_from-IsBus :
    {bus : Bus} (d : GpuDriver) (m : Memory) (allocated : Bool) (now lane : ℕ)
    → IsBus bus
    → IsBus (umsbb_drain_from d m allocated now bus lane).2
unfolding umsbb_drain_from
drain_from-IsBus {bus} d m allocated now lane v =
    elim (Bool-cases (leb bus.ring.active_count lane)) [
      | inl out ↦ rw out v
      | inr on ↦ rw on (elim (Option-cases (get_elem? bus.ring.buffers lane)) [
        | inl e ↦ rw (e, umsbb_drain_from) v
        | inr (b, e) ↦
            rw (e, umsbb_drain_from)
              (drain_lane-IsBus d m allocated now lane v
                (All-get IsLane bus.ring.buffers lane b v.lanes e))
      ])
    ]
