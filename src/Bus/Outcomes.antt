-- ===== src/Bus/Outcomes.antt =====
-- What `umsbb_submit_to` comes to in each case, as one equation.
use universal_multi_segmente.Prelude.{
  ℕ, ◌+◌, ◌*◌, ◌%◌, ◌^◌, ◌≤◌, ◌<◌, ◌≡◌, refl, ap, Bool, true, false, ◌&&◌, some, arith, ltb, le→leb,
  lt→leb, add_size, get_elem?, set,
}
use universal_multi_segmente.Capsule.{Memory, MessageCapsule, capsule_size, capsule_wrap}
use universal_multi_segmente.BiBuffer.{BiBuffer}
use universal_multi_segmente.Control.{batch_next, flow_should_throttle, event_signal}
use universal_multi_segmente.FeedbackStream.{ok, throttled, skipped}
use universal_multi_segmente.Gpu.{GpuDriver, try_gpu_execute}
use universal_multi_segmente.BiBuffer.Invariant.{IsValid}
use universal_multi_segmente.BiBuffer.Protocol.{claim-fits, claim-full}
use universal_multi_segmente.Segments.Arena.{IsArena, arena_alloc-room, arena_alloc-exhausted}
use universal_multi_segmente.Bus.{Bus, log, put_buffer, count_operation}
use universal_multi_segmente.Bus.Submit.{
  submit_answered, submit_placed, submit_claim, submit_capsule, submit_lane, umsbb_submit_to,
}
use universal_multi_segmente.Bus.Lanes.{sent}

-- The bus after a capsule is committed to a lane.
unfoldable pub delivered : ℕ → Bus → ℕ → BiBuffer → MessageCapsule → Bus
delivered now bus lane target c =
    let signalled = record (put_buffer bus lane (sent target c)) {
      scheduler = event_signal bus.scheduler;
    } in
    let noted =
      count_operation (log signalled c.header.sequence ok "Message submitted successfully" now) in
    record noted {
      load_factor = record { num = noted.total_operations; den = noted.segment_count * 1000 };
    }

module _ (now : ℕ) (bus : Bus) (lane : ℕ) (b : BiBuffer) (v : IsValid b) where
  pub submit_claim-fits :
      (c : MessageCapsule)
      → b.write_index + capsule_size ≤ b.capacity
      → submit_claim now bus lane b c ≡ (true, delivered now bus lane b c)
  unfolding submit_claim delivered sent
  submit_claim-fits c h = ap (submit_answered now bus lane c) (claim-fits capsule_size v h)

  pub submit_claim-full :
      (c : MessageCapsule)
      → b.capacity < b.write_index + capsule_size
      → submit_claim now bus lane b c
        ≡ (false, log (put_buffer bus lane b) c.header.sequence skipped "Buffer claim failed" now)
  unfolding submit_claim
  submit_claim-full c h =
      ap (submit_answered now bus lane c)
        (claim-full capsule_size v h (omega (arith, v.written, v.small)))

-- The bus with the capsule's place taken in the arena and its number used up.
unfoldable pub numbered : Bus → Bus
numbered bus = record bus {
  batch = batch_next bus.batch 85;
  arena = record bus.arena { offset = bus.arena.offset + capsule_size };
  sequence = add_size bus.sequence 1;
}

module _ (m : Memory) (now : ℕ) (bus : Bus) (lane : ℕ) (b : BiBuffer) (msg size : ℕ)
    (a : IsArena bus.arena) where
  pub submit_capsule-room :
      bus.arena.offset + capsule_size ≤ bus.arena.capacity
      → submit_capsule m now bus lane b msg size
        ≡ submit_claim now
            (numbered bus)
            lane
            b
            (capsule_wrap m now (bus.sequence % 2 ^ 32) msg size)
  unfolding submit_capsule numbered
  submit_capsule-room h =
      ap (submit_placed m now (record bus { batch = batch_next bus.batch 85 }) lane b msg size)
        (arena_alloc-room capsule_size a h)

  pub submit_capsule-exhausted :
      bus.arena.capacity < bus.arena.offset + capsule_size
      → submit_capsule m now bus lane b msg size ≡ (
        false,
        log
            (record bus { batch = batch_next bus.batch 85 })
            (bus.sequence % 2 ^ 32)
            skipped
            "Arena allocation failed"
            now,
      )
  unfolding submit_capsule
  submit_capsule-exhausted h =
      ap (submit_placed m now (record bus { batch = batch_next bus.batch 85 }) lane b msg size)
        (arena_alloc-exhausted capsule_size a h (omega (arith, a.small, a.within)))

module _ (d : GpuDriver) (m : Memory) (now : ℕ) (bus : Bus) (lane msg size : ℕ) where
  -- The test for the accelerator, which handles large messages.
  abbrev pub on_gpu : Bool
  on_gpu = bus.gpu_enabled && ltb (1024 * 1024) size && try_gpu_execute d size

  pub submit_to-lane :
      (b : BiBuffer)
      → lane < bus.ring.active_count
      → get_elem? bus.ring.buffers lane ≡ some b
      → umsbb_submit_to d m now bus lane msg size ≡ submit_lane d m now bus lane b msg size
  unfolding umsbb_submit_to
  submit_to-lane b h e = rw (lt→leb _ _ h, e, umsbb_submit_to)

  pub submit_to-no_lane :
      bus.ring.active_count ≤ lane → umsbb_submit_to d m now bus lane msg size ≡ (false, bus)
  unfolding umsbb_submit_to
  submit_to-no_lane h = rw (le→leb _ _ h)

module _ (now : ℕ) (bus : Bus) (lane : ℕ) (b : BiBuffer) (c : MessageCapsule) where
  pub buffers-delivered :
      (delivered now bus lane b c).ring.buffers ≡ set bus.ring.buffers lane (sent b c)
  unfolding delivered log put_buffer count_operation
  buffers-delivered = refl

  pub active_count-delivered :
      (delivered now bus lane b c).ring.active_count ≡ bus.ring.active_count
  unfolding delivered log put_buffer count_operation
  active_count-delivered = refl

module _ (d : GpuDriver) (m : Memory) (now : ℕ) (bus : Bus) (lane : ℕ) (b : BiBuffer)
    (msg size : ℕ) where
  pub submit_lane-throttled :
      flow_should_throttle b bus.flow ≡ true
      → submit_lane d m now bus lane b msg size
        ≡ (false, log bus (bus.sequence % 2 ^ 32) throttled "High-water mark reached" now)
  unfolding submit_lane
  submit_lane-throttled t = rw t

  pub submit_lane-cpu :
      flow_should_throttle b bus.flow ≡ false
      → bus.gpu_enabled ≡ false
      → submit_lane d m now bus lane b msg size ≡ submit_capsule m now bus lane b msg size
  unfolding submit_lane
  submit_lane-cpu t g = rw (t, g)
