-- ===== src/WasmCore/Reads.antt =====
-- A read of src/umsbb_wasm_core.c among the buffers of the whole state.
use universal_multi_segmente.Prelude.{
  ℕ, zero, suc, ◌≤◌, ◌<◌, ◌≡◌, refl, sym, ◌∙◌, ap, subst, inl, inr, ◌||◌, Option, none, some, List,
  [], ◌∷◌, ◌==◌, Bool-cases, length, set, update,
}
use mathlib.Core.Option.{some-injective}
use universal_multi_segmente.WasmCore.{
  max_message_size, buffer_empty, Answer, number, code, Buffer, System,
}
use universal_multi_segmente.WasmCore.Buffers.{is_rejected, active_buffer}
use universal_multi_segmente.WasmCore.Writing.{put}
use universal_multi_segmente.WasmCore.Reading.{read_buffer, read_found, read_message}
use universal_multi_segmente.WasmCore.Layout.{Messages}
use universal_multi_segmente.WasmCore.Popping.{IsRead, read_buffer-pop}
use universal_multi_segmente.WasmCore.Invariant.{slot, IsSystem}
use universal_multi_segmente.WasmCore.Writes.{put-IsSystem, active_buffer-live}

-- What a read may come to: the first message of a queue of the buffer, which loses it; or that the
-- buffer is empty, and all its queues are; or another error. Without a message nothing changes.
abbrev pub IsTaken : System → (ℕ → ℕ → Messages) → ℕ → Answer × List ℕ × System → Type 0
IsTaken y qs id (number n, m, y') =
    (index : ℕ) × (rest : Messages) × (qs id index ≡ m ∷ rest)
    × (n ≡ length m)
    × IsSystem y' (update qs id (update (qs id) index rest))
IsTaken y qs id (code e, m, y') =
    (y' ≡ y)
    × (e ≡ buffer_empty
        → (b : Buffer) → slot y.buffers id ≡ some b
        → (i : ℕ) → i < b.num_segments
        → qs id i ≡ [])

set-slot :
    (bs : List (Option Buffer)) (id : ℕ) (b : Buffer)
    → slot bs id ≡ some b
    → set bs id (some b) ≡ bs
set-slot [] id b e = refl
set-slot (o ∷ bs) zero b e = ap (λ x. x ∷ bs) (sym e)
set-slot (o ∷ bs) (suc id) b e = ap (λ l. o ∷ l) (set-slot bs id b e)

module _ (y : System) (qs : ℕ → ℕ → Messages) (v : IsSystem y qs) (id : ℕ) (b : Buffer)
    (e : slot y.buffers id ≡ some b) where
  put_same : put y id (b, y.heap.bytes) y.counter ≡ y
  unfolding put
  put_same = ap (λ bs. record y { buffers = bs }) (set-slot y.buffers id b e)

  IsRead-IsTaken :
      (r : Answer × List ℕ × Buffer)
      → IsRead b y.heap.bytes (qs id) r
      → IsTaken y qs id (r.0, r.1, put y id (r.2, y.heap.bytes) y.counter)
  IsRead-IsTaken r t =
      subst (λ a. IsTaken y qs id (a, r.1, put y id (r.2, y.heap.bytes) y.counter)) (sym t.answer)
        (
          t.index,
          t.rest,
          rw t.copied t.queue,
          ap length (sym t.copied),
          put-IsSystem y qs id b r.2 y.heap.bytes y.counter _ v e t.holds t.buffer t.ready
              (record { index = 0; outside = λ o c. refl; places = t.places }),
        )

  read_found-IsTaken :
      (max_size : ℕ)
      → max_message_size ≤ max_size
      → IsTaken y qs id (read_found y id max_size (some b))
  unfolding read_found
  read_found-IsTaken max_size h =
      let live = v.live id b e in
      elim (read_buffer-pop b y.heap.bytes max_size (qs id) live.holds live.buffer h) [
        | inl (empty, r) ↦ rw r (
          put_same,
          λ k c f i p.
              empty i (subst (λ x. i < x.num_segments) (sym (some-injective b c (sym e ∙ f))) p),
        )
        | inr t ↦ IsRead-IsTaken (read_buffer b y.heap.bytes max_size) t
      ]

-- With room for the longest message, a read gives and takes off the first message of a queue of the
-- buffer and leaves every other queue of every buffer; or it says that the buffer is empty, and all
-- its queues are; or it gives another error. Without a message nothing changes.
pub read_message-IsTaken :
    (y : System) (qs : ℕ → ℕ → Messages) (id max_size : ℕ)
    → IsSystem y qs
    → max_message_size ≤ max_size
    → IsTaken y qs id (read_message y id max_size)
unfolding read_message
read_message-IsTaken y qs id max_size v h = elim (Bool-cases (is_rejected y id || max_size == 0)) [
  | inl e ↦ rw e (refl, λ f. cc)
  | inr e ↦ rw e (found (slot y.buffers id) refl)
]
  where
    found :
        (o : Option Buffer)
        → slot y.buffers id ≡ o
        → IsTaken y qs id (read_found y id max_size (active_buffer o))
    found none e = unfold active_buffer read_found in (refl, λ f. cc)
    found (some b) e =
        rw (active_buffer-live b (v.live id b e).ready)
          (read_found-IsTaken y qs v id b e max_size h)
