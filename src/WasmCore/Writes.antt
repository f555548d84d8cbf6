-- ===== src/WasmCore/Writes.antt =====
-- A write of src/umsbb_wasm_core.c among the buffers of the whole state.
use universal_multi_segmente.Prelude.{
  ℕ, ◌+◌, ◌^◌, ◌≤◌, ◌<◌, ◌≡◌, refl, sym, ◌∙◌, subst, inl, inr, true, ◌||◌, Option, none, some, List,
  arith, ltb, ◌==◌, Bool-cases, add_size, length, update,
}
use mathlib.Core.Option.{some-injective}
use universal_multi_segmente.WasmCore.{
  max_buffers, max_message_size, header_size, ErrorCode, success, Buffer, System,
}
use universal_multi_segmente.WasmCore.Buffers.{is_rejected, active_buffer}
use universal_multi_segmente.WasmCore.Writing.{put, write_found, write_message}
use universal_multi_segmente.WasmCore.Checksums.{Bytes, IsMessage}
use universal_multi_segmente.WasmCore.Layout.{Messages, at, Holds, IsBuffer}
use universal_multi_segmente.WasmCore.Pushing.{next_index, pushed, write_buffer-push}
use universal_multi_segmente.WasmCore.Places.{
  SamePlaces, IsTouched, write_buffer-ready, write_buffer-IsTouched,
}
use universal_multi_segmente.WasmCore.Invariant.{
  slot, IsLive, Disjoint, IsSystem, slot-lt, set-IsSystem, IsLive-SameOutside,
}

SamePlaces-Disjoint :
    (b b' c : Buffer) → SamePlaces b.segments b'.segments → Disjoint b c → Disjoint b' c
SamePlaces-Disjoint b b' c p h i j =
    let (base, capacity) = p i in
    elim (h i j) [ inl k ↦ inl (omega (arith, base, capacity)) | inr k ↦ inr (omega (arith, base)) ]

-- A buffer is changed in place: only bytes of one of its segments change.
pub put-IsSystem :
    (y : System) (qs : ℕ → ℕ → Messages) (id : ℕ) (b b' : Buffer) (d' : ℕ → ℕ) (time : ℕ)
    (q : ℕ → Messages)
    → IsSystem y qs
    → slot y.buffers id ≡ some b
    → Holds b'.segments d' q
    → IsBuffer b'
    → b'.is_initialized ≡ b.is_initialized
    → IsTouched b.segments y.heap.bytes b'.segments d'
    → IsSystem (put y id (b', d') time) (update qs id q)
unfolding put
put-IsSystem y qs id b b' d' time q v e h w r t =
    let live = v.live id b e in
    let bound : id < max_buffers = omega (arith, slot-lt y.buffers id b e, v.slots) in
    set-IsSystem y (put y id (b', d') time) qs id (some b') q v bound refl
      (record { aligned = v.heap.aligned; within = v.heap.within })
      (λ c f. subst (IsLive _ q) (some-injective b' c f) (record {
        holds = h;
        buffer = w;
        ready = r ∙ live.ready;
        below = λ i. omega (arith, (t.places i).0, (t.places i).1, live.below i);
      }))
      (λ j c n f.
        IsLive-SameOutside y.heap _ (qs j) c _ _ (v.live j c f) (omega arith) t.outside
          (λ i. v.disjoint j id c b n f e i t.index))
      (λ c f j c' n f'.
        subst (λ x. Disjoint x c') (some-injective b' c f)
          (SamePlaces-Disjoint b b' c' t.places (v.disjoint id j b c' (λ k. n (sym k)) e f')))

-- What a write may come to: the message is in the queues of the buffer as `pushed` says, or the
-- state is as it was.
abbrev pub IsWritten : System → (ℕ → ℕ → Messages) → ℕ → List ℕ → ErrorCode × System → Type 0
IsWritten y qs id m (success, y') =
    (b : Buffer) × (slot y.buffers id ≡ some b) × IsSystem y' (update qs id (pushed b m (qs id)))
IsWritten y qs id m (other, y') = y' ≡ y

pub active_buffer-live : (b : Buffer) → b.is_initialized ≡ true → active_buffer (some b) ≡ some b
unfolding active_buffer
active_buffer-live b e = rw e

module _ (y : System) (qs : ℕ → ℕ → Messages) (v : IsSystem y qs) (id : ℕ) where
  write_found-IsWritten :
      (m : List ℕ) (o : Option Buffer)
      → IsMessage m
      → slot y.buffers id ≡ o
      → ((b : Buffer)
          → o ≡ some b
          → header_size + length m ≤ (at b.segments (next_index b)).capacity)
      → IsWritten y qs id m (write_found y id m (active_buffer o))
  unfolding write_found
  write_found-IsWritten m none w e f = unfold active_buffer in refl
  write_found-IsWritten m (some b) w e f =
      let live = v.live id b e in
      let time = add_size y.counter 1 in
      let small : time < 2 ^ 64 = omega arith in
      let push =
        write_buffer-push b y.heap.bytes time m (qs id) live.holds live.buffer w small (f b refl) in
      rw (active_buffer-live b live.ready) (
        b,
        e,
        put-IsSystem y qs id b _ _ time (pushed b m (qs id)) v e push.0 push.1
            (write_buffer-ready b y.heap.bytes m (qs id) live.holds live.buffer w time)
            (write_buffer-IsTouched b y.heap.bytes m (qs id) live.holds live.buffer w time
              (f b refl)),
      )

-- A write of bytes to a buffer with large enough segments adds its message to the queues of that
-- buffer, as `pushed` says, and leaves those of every other buffer, or changes nothing.
pub write_message-IsWritten :
    (y : System) (qs : ℕ → ℕ → Messages) (id : ℕ) (m : List ℕ)
    → IsSystem y qs
    → Bytes m
    → ((b : Buffer)
        → slot y.buffers id ≡ some b
        → header_size + length m ≤ (at b.segments (next_index b)).capacity)
    → IsWritten y qs id m (write_message y id m)
unfolding write_message
write_message-IsWritten y qs id m v w f =
    elim (Bool-cases (is_rejected y id || length m == 0 || ltb max_message_size (length m))) [
      | inl e ↦ rw e refl
      | inr e ↦ rw e (
          write_found-IsWritten y qs v id m (slot y.buffers id)
            (record { nonempty = ground arith; short = ground arith; bytes = w }) refl f)
    ]
