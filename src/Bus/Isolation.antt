-- ===== src/Bus/Isolation.antt =====
-- A call on one lane leaves the buffers of the others alone.
use universal_multi_segmente.Prelude.{
  ℕ, ◌≡◌, refl, ◌≢◌, inl, inr, Bool, false, Option, none, some, arith, leb, Bool-cases, get_elem?,
  get_elem?-set_ne,
}
use universal_multi_segmente.Capsule.{Memory, MessageCapsule, capsule_size}
use universal_multi_segmente.BiBuffer.{BiBuffer}
use universal_multi_segmente.Segments.Arena.{ArenaAllocator, arena_alloc}
use universal_multi_segmente.Control.{batch_next}
use universal_multi_segmente.Gpu.{GpuDriver}
use universal_multi_segmente.BiBuffer.{claim, read, release}
use universal_multi_segmente.Bus.{Bus, log, put_buffer, count_operation}
use universal_multi_segmente.Bus.Submit.{
  submit_answered, submit_placed, submit_claim, submit_capsule, submit_lane, umsbb_submit_to,
}
use universal_multi_segmente.Bus.Drain.{
  Drained, drain_capsule, drain_stored, drain_answered, drain_lane, umsbb_drain_from,
}
use universal_multi_segmente.Bus.DrainOutcomes.{buffers-drain_capsule}

-- Every lane but one has the buffer that it had.
abbrev pub Untouched : Bus → ℕ → Bus → Type 0
Untouched bus lane bus' =
    (j : ℕ) → lane ≢ j → get_elem? bus'.ring.buffers j ≡ get_elem? bus.ring.buffers j

put_buffer-Untouched :
    (bus : Bus) (lane : ℕ) (b : BiBuffer) → Untouched bus lane (put_buffer bus lane b)
unfolding put_buffer
put_buffer-Untouched bus lane b j ne = get_elem?-set_ne bus.ring.buffers b ne

submit_claim-Untouched :
    (now : ℕ) (bus : Bus) (lane : ℕ) (b : BiBuffer) (c : MessageCapsule)
    → Untouched bus lane (submit_claim now bus lane b c).1
unfolding submit_claim log count_operation
submit_claim-Untouched now bus lane b c = answered (claim b capsule_size)
  where
    answered : (a : Option ℕ × BiBuffer) → Untouched bus lane (submit_answered now bus lane c a).1
    answered (none, x) = put_buffer-Untouched bus lane x
    answered (some p, x) = put_buffer-Untouched bus lane _

submit_capsule-Untouched :
    (m : Memory) (now : ℕ) (bus : Bus) (lane : ℕ) (b : BiBuffer) (msg size : ℕ)
    → Untouched bus lane (submit_capsule m now bus lane b msg size).1
unfolding submit_capsule log
submit_capsule-Untouched m now bus lane b msg size = placed (arena_alloc bus.arena capsule_size)
  where
    placed :
        (a : Option ℕ × ArenaAllocator)
        → Untouched bus lane
            (submit_placed m now
              (record bus { batch = batch_next bus.batch 85 })
              lane
              b
              msg
              size
              a).1
    placed (none, x) j ne = refl
    placed (some p, x) j ne = submit_claim-Untouched now _ lane b _ j ne

submit_lane-Untouched :
    (d : GpuDriver) (m : Memory) (now : ℕ) (bus : Bus) (lane : ℕ) (b : BiBuffer) (msg size : ℕ)
    → Untouched bus lane (submit_lane d m now bus lane b msg size).1
unfolding submit_lane log count_operation
submit_lane-Untouched d m now bus lane b msg size j ne =
    ground (arith, submit_capsule-Untouched m now bus lane b msg size j ne)

drain_capsule-Untouched :
    (d : GpuDriver) (m : Memory) (allocated : Bool) (now : ℕ) (bus : Bus) (lane : ℕ) (b : BiBuffer)
    (c : MessageCapsule)
    → Untouched bus lane (drain_capsule d m allocated now bus lane b c).2
drain_capsule-Untouched d m allocated now bus lane b c j ne =
    rw (buffers-drain_capsule d m allocated now bus lane b c)
      (get_elem?-set_ne bus.ring.buffers (release b) ne)

drain_lane-Untouched :
    (d : GpuDriver) (m : Memory) (allocated : Bool) (now : ℕ) (bus : Bus) (lane : ℕ) (b : BiBuffer)
    → Untouched bus lane (drain_lane d m allocated now bus lane b).2
unfolding drain_lane log drain_answered
drain_lane-Untouched d m allocated now bus lane b = answered (read b)
  where
    stored :
        (o : Option MessageCapsule)
        → Untouched bus lane (drain_stored d m allocated now bus lane b o).2
    stored none j ne = refl
    stored (some c) j ne = drain_capsule-Untouched d m allocated now bus lane b c j ne

    answered :
        (a : Option (ℕ × ℕ)) → Untouched bus lane (drain_answered d m allocated now bus lane b a).2
    answered none j ne = refl
    answered (some (o, n)) j ne = stored (b.region_a o) j ne

-- A submission to a lane and a drain of it, whatever they come to, change no other lane's buffer.
pub lanes_apart :
    (d : GpuDriver) (m : Memory) (allocated : Bool) (now : ℕ) (bus : Bus) (lane msg size : ℕ)
    → Untouched bus lane (umsbb_submit_to d m now bus lane msg size).1
      × Untouched bus lane (umsbb_drain_from d m allocated now bus lane).2
unfolding umsbb_submit_to umsbb_drain_from
lanes_apart d m allocated now bus lane msg size = (
  λ j ne. elim (Bool-cases (leb bus.ring.active_count lane)) [
    | inl out ↦ rw out
    | inr on ↦ rw on (submitted (get_elem? bus.ring.buffers lane) j ne)
  ],
  λ j ne. elim (Bool-cases (leb bus.ring.active_count lane)) [
    | inl out ↦ rw out
    | inr on ↦ rw on (drained (get_elem? bus.ring.buffers lane) j ne)
  ],
)
  where
    submitted :
        (o : Option BiBuffer) (j : ℕ)
        → lane ≢ j
        → get_elem?
            (elim o as (λ (x : Option BiBuffer). Bool × Bus) [
              | none ↦ (false, bus)
              | some b ↦ submit_lane d m now bus lane b msg size
            ]).1.ring.buffers
            j
          ≡ get_elem? bus.ring.buffers j
    submitted none j ne = refl
    submitted (some b) j ne = submit_lane-Untouched d m now bus lane b msg size j ne

    drained :
        (o : Option BiBuffer) (j : ℕ)
        → lane ≢ j
        → get_elem?
            (elim o as (λ (x : Option BiBuffer). Drained) [
              | none ↦ (none, 0, bus)
              | some b ↦ drain_lane d m allocated now bus lane b
            ]).2.ring.buffers
            j
          ≡ get_elem? bus.ring.buffers j
    drained none j ne = refl
    drained (some b) j ne = drain_lane-Untouched d m allocated now bus lane b j ne
