-- ===== src/WasmCore/Pushing.antt =====
-- What `umsbb_write_message` of src/umsbb_wasm_core.c adds to the queues of a buffer.
use universal_multi_segmente.Prelude.{
  ℕ, ◌+◌, ◌%◌, ◌^◌, ◌≤◌, ◌<◌, ◌≡◌, refl, inl, inr, Bool, true, false, List, [], ◌∷◌, ◌++◌, arith,
  leb, if◌then◌else◌, lt→ltb, ge→ltb, Bool-cases, leb→le, leb→gt, add32, length, set, length-set,
  update, sym, subst, get_or-set_self,
}
use native.Mathlib.Nat.{mod-lt}
use mathlib.Core.Path.{fun_ext}
use universal_multi_segmente.WasmCore.Buffers.{empty_segment}
use universal_multi_segmente.WasmCore.{header_size, Segment, Buffer}
use universal_multi_segmente.WasmCore.Words.{message_header}
use universal_multi_segmente.WasmCore.Writing.{
  is_full, reset_segment, take_next, find_space, copy_message, extended, append, write_buffer,
}
use universal_multi_segmente.WasmCore.Checksums.{IsMessage}
use universal_multi_segmente.WasmCore.Stored.{
  SameOutside, copy_message-SameOutside, IsQueue, extended-IsQueue,
}
use universal_multi_segmente.WasmCore.Layout.{Messages, at, Holds, IsBuffer, set-Holds}

abbrev pub has_room : Segment → List ℕ → Bool
has_room s m = leb (s.write_pos + header_size + length m) s.capacity

-- The index after the current one, the first after the last.
abbrev pub next_index : Buffer → ℕ
next_index b = (b.current_write_segment + 1) % b.num_segments

-- What a write is to do. The message goes to the end of the current queue, if its segment has room;
-- if not, to the end of the next queue, if that has room; if not, the next queue is emptied for it.
unfoldable pub pushed : Buffer → List ℕ → (ℕ → Messages) → ℕ → Messages
pushed b m qs =
    let i = b.current_write_segment in
    let j = next_index b in
    if has_room (at b.segments i) m
    then update qs i (qs i ++ m ∷ [])
    else update qs j ((if has_room (at b.segments j) m then qs j else []) ++ m ∷ [])

module _ {d : ℕ → ℕ} {s : Segment} {ms : Messages} (q : IsQueue d s ms) {m : List ℕ}
    (v : IsMessage m) where
  is_full-IsQueue_room : has_room s m ≡ true → is_full s (header_size + length m) ≡ false
  unfolding is_full
  is_full-IsQueue_room h = ge→ltb s.capacity _ (
      omega (
        arith,
        q.within,
        q.small,
        v.short,
        leb→le (s.write_pos + header_size + length m) s.capacity h,
      ))

  is_full-IsQueue_none : has_room s m ≡ false → is_full s (header_size + length m) ≡ true
  unfolding is_full
  is_full-IsQueue_none h = lt→ltb s.capacity _ (
      omega (
        arith,
        q.within,
        q.small,
        v.short,
        leb→gt (s.write_pos + header_size + length m) s.capacity h,
      ))

  reset-IsQueue : IsQueue d (reset_segment s) []
  reset-IsQueue = record { stored = refl; counted = refl; within = omega arith; small = q.small }

next_index-add32 :
    {b : Buffer} → IsBuffer b → add32 b.current_write_segment 1 % b.num_segments ≡ next_index b
next_index-add32 v = rw (small _ v.writes v.few)
  where
    small : (i : ℕ) {n : ℕ} → i < n → n ≤ 8 → add32 i 1 ≡ i + 1
    small i h k = omega arith

-- The bytes that a message with room changes are in the segment.
pub narrow :
    (d : ℕ → ℕ) (time : ℕ) (m : List ℕ) (s : Segment)
    → s.write_pos + header_size + length m ≤ s.capacity
    → SameOutside d
        (copy_message d (s.base + s.write_pos) (message_header time m) m)
        s.base
        (s.base + s.capacity)
narrow d time m s h o (inl p) =
    copy_message-SameOutside d (s.base + s.write_pos) time m o (inl (omega arith))
narrow d time m s h o (inr p) =
    copy_message-SameOutside d (s.base + s.write_pos) time m o (inr (omega arith))

-- The writing of a message to the current segment, which has room for it.
append-Holds :
    (b : Buffer) (d : ℕ → ℕ) (time : ℕ) (m : List ℕ) (qs : ℕ → Messages) (i : ℕ)
    → b.current_write_segment ≡ i
    → i < length b.segments
    → Holds b.segments d qs
    → IsMessage m
    → time < 2 ^ 64
    → (at b.segments i).write_pos + header_size + length m ≤ (at b.segments i).capacity
    → let (b', d') = append b d time m in Holds b'.segments d' (update qs i (qs i ++ m ∷ []))
unfolding append
append-Holds b d time m qs i e k h v t fits = rw e (
    set-Holds b.segments d _ qs i (extended (at b.segments i) (header_size + length m)) _ h k refl
      refl (extended-IsQueue (h.queues i) time m t v fits) (narrow d time m (at b.segments i) fits))

update-update :
    (qs : ℕ → Messages) (j : ℕ) (q : Messages)
    → update (update qs j []) j (update qs j [] j ++ q) ≡ update qs j q
update-update qs j q = fun_ext λ i. ground arith

-- The buffer that `find_space` gives, in its three cases.
pub data Space (b : Buffer) (m : List ℕ) : Buffer → Type 0 where
  here : has_room (at b.segments b.current_write_segment) m ≡ true → Space b m b
  next :
      has_room (at b.segments b.current_write_segment) m ≡ false
      → has_room (at b.segments (next_index b)) m ≡ true
      → Space b m (record b { current_write_segment = next_index b })
  emptied :
      has_room (at b.segments b.current_write_segment) m ≡ false
      → has_room (at b.segments (next_index b)) m ≡ false
      → Space b m (record b {
        segments = set b.segments (next_index b) (reset_segment (at b.segments (next_index b)));
        current_write_segment = next_index b;
      })

module _ (b : Buffer) (d : ℕ → ℕ) (m : List ℕ) (qs : ℕ → Messages) (h : Holds b.segments d qs)
    (w : IsBuffer b) (v : IsMessage m) where
  pub next_index-lt : next_index b < b.num_segments
  next_index-lt =
      let some_segment : 0 < b.num_segments = omega (arith, w.writes) in
      mod-lt (b.current_write_segment + 1) some_segment

  pub next_index_bound : next_index b < length b.segments
  next_index_bound = omega (arith, w.present, next_index-lt)

  pub find_space-Space : Space b m (find_space b (header_size + length m))
  unfolding find_space take_next
  find_space-Space =
      let i = b.current_write_segment in
      elim (Bool-cases (has_room (at b.segments i) m)) [
        | inl e ↦ rw (is_full-IsQueue_room (h.queues i) v e) (here e)
        | inr e ↦
            rw (is_full-IsQueue_none (h.queues i) v e, next_index-add32 w)
              (elim (Bool-cases (has_room (at b.segments (next_index b)) m)) [
                | inl f ↦ rw (is_full-IsQueue_room (h.queues (next_index b)) v f) (next e f)
                | inr f ↦ rw (is_full-IsQueue_none (h.queues (next_index b)) v f) (emptied e f)
              ])
      ]

  append-Space :
      {b' : Buffer} (time : ℕ)
      → Space b m b'
      → time < 2 ^ 64
      → header_size + length m ≤ (at b.segments (next_index b)).capacity
      → let (b'', d') = append b' d time m in Holds b''.segments d' (pushed b m qs)
  unfolding pushed
  append-Space time (here e) t fits = rw e (
      append-Holds b d time m qs b.current_write_segment refl (omega (arith, w.present, w.writes)) h
        v t
        (leb→le ((at b.segments b.current_write_segment).write_pos + header_size + length m)
          (at b.segments b.current_write_segment).capacity e))
  append-Space time (next e f) t fits =
      rw (e, f)
        (append-Holds (record b { current_write_segment = next_index b }) d time m qs (next_index b)
          refl next_index_bound h v t
          (leb→le ((at b.segments (next_index b)).write_pos + header_size + length m)
            (at b.segments (next_index b)).capacity f))
  append-Space time (emptied e f) t fits =
      let j = next_index b in
      let s = at b.segments j in
      let cleared =
        set-Holds b.segments d d qs j (reset_segment s) [] h next_index_bound refl refl
          (reset-IsQueue (h.queues j) v) (λ o c. refl) in
      rw (e, f)
        (subst (Holds _ _) (update-update qs j (m ∷ [])) (
          append-Holds _ d time m (update qs j []) j refl
            (omega (arith, length-set b.segments j (reset_segment s), next_index_bound)) cleared v t
            (subst (λ x. x.write_pos + header_size + length m ≤ x.capacity)
              (sym (get_or-set_self b.segments j (reset_segment s) empty_segment next_index_bound))
              (omega (arith, fits)))))

  Space-IsBuffer : {b' : Buffer} → Space b m b' → IsBuffer b'
  Space-IsBuffer (here e) = w
  Space-IsBuffer (next e f) = record {
    writes = next_index-lt;
    reads = w.reads;
    present = w.present;
    few = w.few;
  }
  Space-IsBuffer (emptied e f) = record {
    writes = next_index-lt;
    reads = w.reads;
    present = subst (λ n. b.num_segments ≤ n) (sym (length-set b.segments _ _)) w.present;
    few = w.few;
  }

append-IsBuffer :
    (b : Buffer) (d : ℕ → ℕ) (time : ℕ) (m : List ℕ) → IsBuffer b → IsBuffer (append b d time m).0
unfolding append
append-IsBuffer b d time m w = record {
  writes = w.writes;
  reads = w.reads;
  present = subst (λ n. b.num_segments ≤ n) (sym (length-set b.segments _ _)) w.present;
  few = w.few;
}

-- For a message for which the next segment is large enough, a write to a buffer whose segments are
-- queues that share no byte gives such a buffer again: the message is at the end of the current
-- queue if there is room behind it, at the end of the next queue if only there is room, and alone in
-- the next queue, the messages of which are gone, if there is no room at either.
pub write_buffer-push :
    (b : Buffer) (d : ℕ → ℕ) (time : ℕ) (m : List ℕ) (qs : ℕ → Messages)
    → Holds b.segments d qs
    → IsBuffer b
    → IsMessage m
    → time < 2 ^ 64
    → header_size + length m ≤ (at b.segments (next_index b)).capacity
    → let (b', d') = write_buffer b d time m in Holds b'.segments d' (pushed b m qs) × IsBuffer b'
unfolding write_buffer
write_buffer-push b d time m qs h w v t fits =
    let space = find_space-Space b d m qs h w v in
    (
      append-Space b d m qs h w v time space t fits,
      append-IsBuffer _ d time m (Space-IsBuffer b d m qs h w v space),
    )
