-- ===== src/WasmCore/Faults.antt =====
-- Where src/umsbb_wasm_core.c loses messages or leaves its segments.
use universal_multi_segmente.Prelude.{
  ℕ, zero, suc, ◌+◌, ◌-◌, ◌^◌, ◌<◌, ◌≡◌, refl, sym, ap, ◌∙◌, subst, false, List, [], ◌∷◌, arith,
  lt→leb, add32, length, set, get_or-set_self, length-set,
}
use universal_multi_segmente.Standalone.Bytes.{load, load-store_self}
use universal_multi_segmente.WasmCore.{header_size, Segment, Buffer}
use universal_multi_segmente.WasmCore.Words.{message_header}
use universal_multi_segmente.WasmCore.Buffers.{empty_segment}
use universal_multi_segmente.WasmCore.Writing.{
  reset_segment, copy_message, count_write, extended, append, write_buffer,
}
use universal_multi_segmente.WasmCore.Checksums.{IsMessage}
use universal_multi_segmente.WasmCore.Layout.{Messages, at, Holds, IsBuffer}
use universal_multi_segmente.WasmCore.Pushing.{
  has_room, next_index, Space, here, next, emptied, find_space-Space, next_index_bound,
}

-- The messages that the segments say they hold.
unfoldable pub held_messages : List Segment → ℕ
held_messages [] = 0
held_messages (s ∷ ss) = s.message_count + held_messages ss

held_messages-set :
    (ss : List Segment) (j : ℕ) (s : Segment)
    → j < length ss
    → held_messages (set ss j s) + (at ss j).message_count ≡ held_messages ss + s.message_count
unfolding held_messages
held_messages-set [] j s h = absurd (omega arith)
held_messages-set (x ∷ ss) zero s h = omega arith
held_messages-set (x ∷ ss) (suc j) s h = omega (arith, held_messages-set ss j s (omega arith))

module _ (b : Buffer) (d : ℕ → ℕ) (time : ℕ) (m : List ℕ) (qs : ℕ → Messages)
    (h : Holds b.segments d qs) (w : IsBuffer b) (v : IsMessage m)
    (full : has_room (at b.segments b.current_write_segment) m ≡ false)
    (next_full : has_room (at b.segments (next_index b)) m ≡ false) where
  abbrev reset : Buffer
  reset = record b {
    segments = set b.segments (next_index b) (reset_segment (at b.segments (next_index b)));
    current_write_segment = next_index b;
  }

  Space-reset : {b' : Buffer} → Space b m b' → b' ≡ reset
  Space-reset (here e) = cc
  Space-reset (next e f) = cc
  Space-reset (emptied e f) = refl

  -- Where neither the current nor the next segment has room, the next one is reset.
  write_buffer_resets : write_buffer b d time m ≡ append reset d time m
  unfolding write_buffer
  write_buffer_resets = ap (λ x. append x d time m) (Space-reset (find_space-Space b d m qs h w v))

  own : at reset.segments (next_index b) ≡ reset_segment (at b.segments (next_index b))
  own =
      get_or-set_self b.segments (next_index b) (reset_segment (at b.segments (next_index b)))
        empty_segment (next_index_bound b d m qs h w v)

  count_lem : (write_buffer b d time m).0.stats.pending_messages ≡ add32 b.stats.pending_messages 1
  unfolding append count_write
  count_lem = rw write_buffer_resets refl

  segments_lem :
      (write_buffer b d time m).0.segments
      ≡ set reset.segments
          (next_index b)
          (extended (at reset.segments (next_index b)) (header_size + length m))
  unfolding append
  segments_lem = rw write_buffer_resets refl

overrun_positions :
    (b : Buffer) (d : ℕ → ℕ) (time : ℕ) (m : List ℕ) (s : Segment)
    → at b.segments b.current_write_segment ≡ reset_segment s
    → b.current_write_segment < length b.segments
    → let (b', d') = append b d time m in
      (at b'.segments b.current_write_segment ≡ extended (reset_segment s) (header_size + length m))
      × (load d' (s.base + header_size) (length m) ≡ m)
unfolding append copy_message
overrun_positions b d time m s e h = (
  get_or-set_self b.segments b.current_write_segment _ empty_segment h
      ∙ ap (λ t. extended t (header_size + length m)) e,
  let origin : s.base ≡ s.base + 0 = omega arith in
      subst
        (λ (t : Segment).
          load (copy_message d (t.base + t.write_pos) (message_header time m) m)
            (s.base + header_size) (length m)
          ≡ m)
        (sym e)
        (subst
          (λ p.
            load (copy_message d p (message_header time m) m) (s.base + header_size) (length m) ≡ m)
          origin (load-store_self _ (s.base + header_size) m)),
)

-- If there is no room at the current and at the next segment, a write leaves the next segment with
-- its own message only, as the first in its bytes, and goes on counting the messages that were there:
-- the counter of pending messages, if it was the number of messages in the segments and less than
-- 2 ^ 32 - 1, is afterwards larger than that number by the messages that the next segment had.
pub write_buffer_discards :
    (b : Buffer) (d : ℕ → ℕ) (time : ℕ) (m : List ℕ) (qs : ℕ → Messages)
    → Holds b.segments d qs
    → IsBuffer b
    → IsMessage m
    → has_room (at b.segments b.current_write_segment) m ≡ false
    → has_room (at b.segments (next_index b)) m ≡ false
    → b.stats.pending_messages ≡ held_messages b.segments
    → held_messages b.segments < 2 ^ 32 - 1
    → let (b', d') = write_buffer b d time m in
      let s = at b'.segments (next_index b) in
      (s.message_count ≡ 1)
      × (s.read_pos ≡ 0)
      × (load d' (s.base + header_size) (length m) ≡ m)
      × (b'.stats.pending_messages
          ≡ held_messages b'.segments + (at b.segments (next_index b)).message_count)
write_buffer_discards b d time m qs h w v f g p k =
    let j = next_index b in
    let s = at b.segments j in
    let r = reset b d time m qs h w v f g in
    let here = own b d time m qs h w v f g in
    let bound = next_index_bound b d m qs h w v in
    let inside : j < length r.segments =
      omega (arith, bound, length-set b.segments j (reset_segment s)) in
    let (placed, copied) = overrun_positions r d time m s here inside in
    let removed = held_messages-set b.segments j (reset_segment s) bound in
    let added =
      held_messages-set r.segments j (extended (at r.segments j) (header_size + length m)) inside in
    let none_left : (at r.segments j).message_count ≡ 0 =
      ap (λ (t : Segment). t.message_count) here in
    let counted : (write_buffer b d time m).0.stats.pending_messages
        ≡ held_messages (write_buffer b d time m).0.segments + s.message_count =
      rw (segments_lem b d time m qs h w v f g)
        (omega (arith, count_lem b d time m qs h w v f g, removed, added, none_left, p, k)) in
    let first : at (write_buffer b d time m).0.segments j
        ≡ extended (reset_segment s) (header_size + length m) =
      rw (write_buffer_resets b d time m qs h w v f g) placed in
    (
      ap (λ (t : Segment). t.message_count) first,
      ap (λ (t : Segment). t.read_pos) first,
      rw first (rw (write_buffer_resets b d time m qs h w v f g) copied),
      counted,
    )

-- A segment that is reset is not checked again: a message that is longer than the next segment, at a
-- time when the current one has no room either, is written past the end of that segment, and the
-- write position ends up behind its capacity.
pub write_buffer_overruns :
    (b : Buffer) (d : ℕ → ℕ) (time : ℕ) (m : List ℕ) (qs : ℕ → Messages)
    → Holds b.segments d qs
    → IsBuffer b
    → IsMessage m
    → has_room (at b.segments b.current_write_segment) m ≡ false
    → (at b.segments (next_index b)).capacity < header_size + length m
    → let (b', d') = write_buffer b d time m in
      let s = at b'.segments (next_index b) in
      (s.base ≡ (at b.segments (next_index b)).base)
      × (s.capacity ≡ (at b.segments (next_index b)).capacity)
      × (s.write_pos ≡ header_size + length m)
      × (s.capacity < s.write_pos)
      × (load d' (s.base + header_size) (length m) ≡ m)
write_buffer_overruns b d time m qs h w v f k =
    let j = next_index b in
    let s = at b.segments j in
    let g : has_room s m ≡ false =
      lt→leb (s.write_pos + header_size + length m) s.capacity (omega arith) in
    let r = reset b d time m qs h w v f g in
    let bound = next_index_bound b d m qs h w v in
    let (placed, copied) =
      overrun_positions r d time m s (own b d time m qs h w v f g)
        (omega (arith, bound, length-set b.segments j (reset_segment s))) in
    rw (write_buffer_resets b d time m qs h w v f g)
      (rw placed (refl, refl, omega (arith, v.short), omega (arith, v.short, k), copied))
