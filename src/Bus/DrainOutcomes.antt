-- ===== src/Bus/DrainOutcomes.antt =====
-- What `umsbb_drain_from` comes to in each case.
use universal_multi_segmente.Prelude.{
  ℕ, ◌<◌, ◌≡◌, refl, ap, ◌∙◌, Bool, true, false, none, some, arith, lt→leb, get_elem?, set,
}
use universal_multi_segmente.Capsule.{Memory, MessageCapsule, capsule_validate}
use universal_multi_segmente.BiBuffer.{BiBuffer}
use universal_multi_segmente.FeedbackStream.{corrupted}
use universal_multi_segmente.Gpu.{GpuDriver}
use universal_multi_segmente.BiBuffer.{read, release}
use universal_multi_segmente.Bus.{Bus, log, put_buffer, count_operation}
use universal_multi_segmente.Bus.Drain.{
  bytes_at, clear_if_idle, drain_payload, drain_capsule, drain_stored, drain_answered, drain_lane,
  umsbb_drain_from,
}

module _ (d : GpuDriver) (m : Memory) (allocated : Bool) (now : ℕ) (bus : Bus) (lane : ℕ) where
  -- A lane that a capsule is read from.
  pub drain_from-capsule :
      (b : BiBuffer) (o n : ℕ) (c : MessageCapsule)
      → lane < bus.ring.active_count
      → get_elem? bus.ring.buffers lane ≡ some b
      → read b ≡ some (o, n)
      → b.region_a o ≡ some c
      → umsbb_drain_from d m allocated now bus lane ≡ drain_capsule d m allocated now bus lane b c
  unfolding umsbb_drain_from drain_lane
  drain_from-capsule b o n c h e r s = rw (lt→leb _ _ h) (
      rw (e, umsbb_drain_from)
        (ap (drain_answered d m allocated now bus lane b) r
          ∙ ap (drain_stored d m allocated now bus lane b) s))

  module _ (b : BiBuffer) (c : MessageCapsule) where
    pub buffers-drain_payload :
        (drain_payload d m now bus lane b c).2.ring.buffers ≡ set bus.ring.buffers lane (release b)
    unfolding drain_payload clear_if_idle log put_buffer count_operation
    buffers-drain_payload = ground arith

    pub buffers-drain_capsule :
        (drain_capsule d m allocated now bus lane b c).2.ring.buffers
        ≡ set bus.ring.buffers lane (release b)
    unfolding drain_capsule log put_buffer
    buffers-drain_capsule = ground (arith, buffers-drain_payload)

    pub drain_capsule-valid :
        capsule_validate m c ≡ true
        → allocated ≡ true
        → ((drain_capsule d m allocated now bus lane b c).0 ≡ some (bytes_at m c.payload c.size))
          × ((drain_capsule d m allocated now bus lane b c).1 ≡ c.size)
    unfolding drain_capsule drain_payload
    drain_capsule-valid v a = rw (v, a) (refl, refl)

    pub drain_capsule-corrupt :
        capsule_validate m c ≡ false
        → drain_capsule d m allocated now bus lane b c ≡ (
          none,
          0,
          put_buffer
              (log bus c.header.sequence corrupted
                "Checksum mismatch - state machine integrity failure" now)
              lane
              (release b),
        )
    unfolding drain_capsule
    drain_capsule-corrupt v = rw v
