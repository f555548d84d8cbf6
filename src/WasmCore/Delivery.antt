-- ===== src/WasmCore/Delivery.antt =====
-- A message from a write to a read of src/umsbb_wasm_core.c.
use universal_multi_segmente.Prelude.{
  ℕ, ◌+◌, ◌^◌, ◌≤◌, ◌<◌, ◌≡◌, refl, sym, ◌∙◌, ap, subst, ◌⊎◌, inl, inr, Bool, true, false, ◌||◌,
  none, some, List, [], ◌∷◌, ◌++◌, arith, ltb, ◌==◌, Bool-cases, if◌then◌else◌, add_size, length,
  get_or-set_self, update,
}
use universal_multi_segmente.WasmCore.{
  max_buffers, max_message_size, header_size, success, number, Answer, Buffer, System,
}
use universal_multi_segmente.WasmCore.Buffers.{is_rejected}
use universal_multi_segmente.WasmCore.Writing.{write_buffer, put, write_found, write_message}
use universal_multi_segmente.WasmCore.Reading.{read_buffer, read_found, read_message}
use universal_multi_segmente.WasmCore.Checksums.{IsMessage}
use universal_multi_segmente.WasmCore.Layout.{Messages, at, Holds, IsBuffer}
use universal_multi_segmente.WasmCore.Pushing.{
  has_room, next_index, next_index-lt, pushed, write_buffer-push,
}
use universal_multi_segmente.WasmCore.Places.{write_buffer-ready, write_buffer-num_segments}
use universal_multi_segmente.WasmCore.Popping.{IsRead, read_buffer-pop}
use universal_multi_segmente.WasmCore.Invariant.{slot, slot-lt, IsSystem}
use universal_multi_segmente.WasmCore.Writes.{active_buffer-live}

-- What a write puts in empty queues: the message alone in one of them.
record IsAlone (n : ℕ) (m : List ℕ) (qs : ℕ → Messages) : Type 0 where
  index : ℕ
  present : index < n
  filled : qs index ≡ m ∷ []
  others : (j : ℕ) → (qs j ≡ []) ⊎ (qs j ≡ m ∷ [])

update-IsAlone :
    (n i : ℕ) (m : List ℕ) (qs : ℕ → Messages) (q : Messages)
    → i < n
    → q ≡ []
    → ((j : ℕ) → qs j ≡ [])
    → IsAlone n m (update qs i (q ++ m ∷ []))
update-IsAlone n i m qs q h e f = record {
  index = i;
  present = h;
  filled = let s : (i == i) ≡ true = ground arith in rw (s, e) refl;
  others =
      λ j. elim (Bool-cases (j == i)) [ inl g ↦ rw (g, e) (inr refl) | inr g ↦ rw g (inl (f j)) ];
}

pushed-IsAlone :
    (b : Buffer) (m : List ℕ) (qs : ℕ → Messages)
    → b.current_write_segment < b.num_segments
    → next_index b < b.num_segments
    → ((j : ℕ) → qs j ≡ [])
    → IsAlone b.num_segments m (pushed b m qs)
unfolding pushed
pushed-IsAlone b m qs h k f =
    let i = b.current_write_segment in
    elim (Bool-cases (has_room (at b.segments i) m)) [
      | inl e ↦ rw e (update-IsAlone b.num_segments i m qs (qs i) h (f i) f)
      | inr e ↦ rw e (
          update-IsAlone b.num_segments (next_index b) m qs _ k
            (either (has_room (at b.segments (next_index b)) m)) f)
    ]
  where
    either : (t : Bool) → (if t then qs (next_index b) else []) ≡ []
    either true = f (next_index b)
    either false = refl

IsAlone-IsRead :
    {n : ℕ} {m : List ℕ} (qs : ℕ → Messages) (b : Buffer) (d : ℕ → ℕ) (r : Answer × List ℕ × Buffer)
    → IsAlone n m qs
    → IsRead b d qs r
    → (r.0 ≡ number (length m)) × (r.1 ≡ m)
IsAlone-IsRead {m = m} qs b d r a t = elim (a.others t.index) [
  | inl e ↦ cc (t.queue)
  | inr e ↦
      let same : t.message ≡ m = cc (t.queue) in
      (t.answer ∙ ap (λ x. number (length x)) same, t.copied ∙ same)
]

is_rejected-lem :
    (y : System) (id : ℕ) → y.initialized ≡ true → id < max_buffers → is_rejected y id ≡ false
unfolding is_rejected
is_rejected-lem y id e h = ground arith

write_message-live :
    (y : System) (id : ℕ) (m : List ℕ) (b : Buffer)
    → y.initialized ≡ true
    → id < max_buffers
    → slot y.buffers id ≡ some b
    → b.is_initialized ≡ true
    → IsMessage m
    → let time = add_size y.counter 1 in
      write_message y id m ≡ (success, put y id (write_buffer b y.heap.bytes time m) time)
unfolding write_message write_found
write_message-live y id m b e h s r w =
    rw (is_rejected-lem y id e h, passed (length m) w.nonempty w.short, s, active_buffer-live b r)
      refl
  where
    passed : (n : ℕ) → 0 < n → n ≤ max_message_size → (n == 0 || ltb max_message_size n) ≡ false
    passed n p q = ground arith

read_message-live :
    (y : System) (id max_size : ℕ) (b : Buffer)
    → y.initialized ≡ true
    → id < max_buffers
    → slot y.buffers id ≡ some b
    → b.is_initialized ≡ true
    → 0 < max_size
    → read_message y id max_size ≡ read_found y id max_size (some b)
unfolding read_message
read_message-live y id max_size b e h s r k =
    rw (is_rejected-lem y id e h, positive max_size k, s, active_buffer-live b r) refl
  where
    positive : (n : ℕ) → 0 < n → (n == 0) ≡ false
    positive n p = ground arith

read_found-alone :
    (y : System) (id max_size : ℕ) (b : Buffer) (m : List ℕ) (qs : ℕ → Messages)
    → Holds b.segments y.heap.bytes qs
    → IsBuffer b
    → IsAlone b.num_segments m qs
    → max_message_size ≤ max_size
    → let (answer, copied, y') = read_found y id max_size (some b) in
      (answer ≡ number (length m)) × (copied ≡ m)
unfolding read_found
read_found-alone y id max_size b m qs h w a k =
    elim (read_buffer-pop b y.heap.bytes max_size qs h w k) [
      | inl (e, r) ↦ absurd (cc (e a.index a.present, a.filled))
      | inr t ↦ IsAlone-IsRead qs b y.heap.bytes (read_buffer b y.heap.bytes max_size) a t
    ]

-- A message of 1 byte to 1 MB that is written to a buffer in use whose queues are empty, and whose
-- next segment is large enough for it, is accepted, and a read with room for the longest message then
-- gives its size and its bytes.
pub write-read :
    (y : System) (qs : ℕ → ℕ → Messages) (id max_size : ℕ) (b : Buffer) (m : List ℕ)
    → IsSystem y qs
    → y.initialized ≡ true
    → slot y.buffers id ≡ some b
    → ((i : ℕ) → qs id i ≡ [])
    → IsMessage m
    → header_size + length m ≤ (at b.segments (next_index b)).capacity
    → max_message_size ≤ max_size
    → let (result, y') = write_message y id m in
      let (answer, copied, y'') = read_message y' id max_size in
      (result ≡ success) × (answer ≡ number (length m)) × (copied ≡ m)
write-read y qs id max_size b m v e s f w fits k =
    let live = v.live id b s in
    let bound : id < max_buffers = omega (arith, slot-lt y.buffers id b s, v.slots) in
    let time = add_size y.counter 1 in
    let small : time < 2 ^ 64 = omega arith in
    let p = write_buffer b y.heap.bytes time m in
    let push =
      write_buffer-push b y.heap.bytes time m (qs id) live.holds live.buffer w small fits in
    let alone =
      pushed-IsAlone b m (qs id) live.buffer.writes
        (next_index-lt b y.heap.bytes m (qs id) live.holds live.buffer w) f in
    let ready =
      write_buffer-ready b y.heap.bytes m (qs id) live.holds live.buffer w time ∙ live.ready in
    let count = write_buffer-num_segments b y.heap.bytes m (qs id) live.holds live.buffer w time in
    let read =
      read_found-alone (put y id p time) id max_size p.0 m (pushed b m (qs id))
        (unfold put in push.0) push.1
        (subst (λ n. IsAlone n m (pushed b m (qs id))) (sym count) alone) k in
    rw (write_message-live y id m b e bound s live.ready w) (
      rw
        (read_message-live (put y id p time) id max_size p.0 (unfold put in e) bound
          (unfold put in
            get_or-set_self y.buffers id (some p.0) none (omega (arith, bound, v.slots)))
          ready (omega arith))
        (refl, read.0, read.1))
