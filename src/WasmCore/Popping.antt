-- ===== src/WasmCore/Popping.antt =====
-- What `umsbb_read_message` of src/umsbb_wasm_core.c takes from the queues of a buffer.
use universal_multi_segmente.Prelude.{
  ℕ, zero, suc, ◌+◌, ◌-◌, ◌%◌, ◌^◌, ◌≤◌, ◌<◌, ◌≡◌, refl, sym, ap, ◌∙◌, subst, ◌≢◌, ◌⊎◌, inl, inr,
  Bool, true, false, ◌&&◌, Option, none, some, List, [], ◌∷◌, arith, ltb, leb, ◌==◌, ge→ltb,
  Bool-cases, leb→le, add32, ==_refl, length, set, length-set, update,
}
use native.Mathlib.Nat.{mod-lt, mod-eq_of_lt, mod-eq-sub-mod}
use universal_multi_segmente.Standalone.Bytes.{load}
use universal_multi_segmente.WasmCore.{
  header_size, max_message_size, buffer_empty, Answer, number, code, MessageHeader, Segment, Buffer,
}
use universal_multi_segmente.WasmCore.Words.{calculate_checksum, decode}
use universal_multi_segmente.WasmCore.Reading.{
  is_drained, next_filled, with_read_segment, find_filled, count_read, advanced, read_checked,
  read_header, read_current, read_buffer,
}
use universal_multi_segmente.WasmCore.Stored.{Stored-length, IsQueue, advanced-IsQueue}
use universal_multi_segmente.WasmCore.Places.{SamePlaces, set-SamePlaces}
use universal_multi_segmente.WasmCore.Layout.{Messages, at, Holds, IsBuffer, set-Holds}

module _ {d : ℕ → ℕ} {s : Segment} where
  is_drained-empty : IsQueue d s [] → is_drained s ≡ true
  unfolding is_drained
  is_drained-empty q = ground (arith, q.counted)

  filled :
      {m : List ℕ} {ms : Messages}
      → IsQueue d s (m ∷ ms)
      → (0 < s.message_count) × (s.read_pos + 16 ≤ s.write_pos)
  filled {m} {ms} q = (
    omega (arith, q.counted),
    omega (arith, Stored-length d (s.base + s.read_pos) (m ∷ ms) (s.base + s.write_pos) q.stored),
  )

  is_drained-filled : {m : List ℕ} {ms : Messages} → IsQueue d s (m ∷ ms) → is_drained s ≡ false
  unfolding is_drained
  is_drained-filled q = ground (arith, filled q)

-- The segment is one that the loop passes over, or takes.
abbrev is_filled : Segment → Bool
is_filled s = ltb 0 s.message_count && ltb s.read_pos s.write_pos

is_filled-empty : {d : ℕ → ℕ} {s : Segment} → IsQueue d s [] → is_filled s ≡ false
is_filled-empty q = ground (arith, q.counted)

is_filled-queue :
    {d : ℕ → ℕ} {s : Segment} (ms : Messages) → IsQueue d s ms → is_filled s ≡ false → ms ≡ []
is_filled-queue [] q e = refl
is_filled-queue (m ∷ ms) q e = absurd (ground (arith, filled q))

is_filled-some :
    {d : ℕ → ℕ} {s : Segment} (ms : Messages)
    → IsQueue d s ms
    → is_filled s ≡ true
    → (m : List ℕ) × (r : Messages) × (ms ≡ m ∷ r)
is_filled-some [] q e = absurd (ground (arith, q.counted))
is_filled-some (m ∷ ms) q e = (m, ms, refl)

-- The index that the loop visits in round `k`.
abbrev visited : Buffer → ℕ → ℕ
visited b k = add32 b.current_read_segment k % b.num_segments

-- What the loop gives from round `i` on.
abbrev IsSearched : Buffer → (n i : ℕ) → Option ℕ → Type 0
IsSearched b n i none =
    (k : ℕ) → i ≤ k → k < i + n → is_filled (at b.segments (visited b k)) ≡ false
IsSearched b n i (some j) = (k : ℕ) × (j ≡ visited b k) × (is_filled (at b.segments j) ≡ true)

next_filled-IsSearched : (n i : ℕ) (b : Buffer) → IsSearched b n i (next_filled n i b)
unfolding next_filled
next_filled-IsSearched zero i b = λ k p q. absurd (omega arith)
next_filled-IsSearched (suc n) i b = elim (Bool-cases (is_filled (at b.segments (visited b i)))) [
  | inl e ↦ rw e (i, refl, e)
  | inr e ↦ rw e (later (next_filled n (i + 1) b) e (next_filled-IsSearched n (i + 1) b))
]
  where
    later :
        (o : Option ℕ)
        → is_filled (at b.segments (visited b i)) ≡ false
        → IsSearched b n (i + 1) o
        → IsSearched b (suc n) i o
    later none e s = λ k p q. elim (Bool-cases (k == i)) [
      | inl f ↦ subst (λ k. is_filled (at b.segments (visited b k)) ≡ false) (ground arith) e
      | inr f ↦ s k (ground arith) (omega arith)
    ]
    later (some j) e s = s

round_up : (c j n : ℕ) → c ≤ j → j < n → n ≤ 8 → add32 c (j - c) % n ≡ j
round_up c j n h k f =
    let e : add32 c (j - c) ≡ j = omega arith in ap (λ x. x % n) e ∙ mod-eq_of_lt k

round_over : (c j n : ℕ) → c < n → j < n → n ≤ 8 → add32 c (j + n - c) % n ≡ j
round_over c j n h k f =
    let e : add32 c (j + n - c) ≡ j + n = omega arith in
    let over : n ≤ j + n = omega arith in
    let back : j + n - n ≡ j = omega arith in
    ap (λ x. x % n) e ∙ mod-eq-sub-mod over ∙ ap (λ x. x % n) back ∙ mod-eq_of_lt k

-- Every index is visited.
visited-onto :
    (b : Buffer)
    → IsBuffer b
    → (j : ℕ) → j < b.num_segments
    → (k : ℕ) × (k < b.num_segments) × (visited b k ≡ j)
visited-onto b w j h = elim (Bool-cases (leb b.current_read_segment j)) [
  | inl e ↦ (
    j - b.current_read_segment,
    ground arith,
    round_up b.current_read_segment j b.num_segments (leb→le _ _ e) h w.few,
  )
  | inr e ↦ (
    j + b.num_segments - b.current_read_segment,
    ground arith,
    round_over b.current_read_segment j b.num_segments w.reads h w.few,
  )
]

-- A read of a segment with a message gives the first one and takes it off the queue.
abbrev taken : Buffer → List ℕ → Buffer
taken b m = record b {
  segments =
      set b.segments b.current_read_segment
        (advanced (at b.segments b.current_read_segment) (length m));
  stats = count_read b.stats (length m);
}

read_header-whole :
    (b : Buffer) (d : ℕ → ℕ) (p : ℕ) (header : MessageHeader) (max_size : ℕ) (m : List ℕ)
    → header.size ≡ length m
    → header.checksum ≡ calculate_checksum m
    → load d (p + header_size) (length m) ≡ m
    → length m ≤ max_size
    → read_header b d p header max_size ≡ (number (length m), m, taken b m)
unfolding read_header read_checked
read_header-whole b d p header max_size m z c l h =
    rw (z, c, l, ge→ltb max_size (length m) h, ==_refl (calculate_checksum m)) refl

module _ (b : Buffer) (d : ℕ → ℕ) (max_size : ℕ) where
  read_current-queue :
      {m : List ℕ} {ms : Messages}
      → IsQueue d (at b.segments b.current_read_segment) (m ∷ ms)
      → length m ≤ max_size
      → read_current b d max_size ≡ (number (length m), m, taken b m)
  unfolding read_current
  read_current-queue {m} {ms} q h =
      let s = at b.segments b.current_read_segment in
      rw
        (
          is_drained-filled q,
          ge→ltb s.write_pos (add32 s.read_pos header_size) (room s (filled q).1 q.within q.small),
        )
        (read_header-whole b d (s.base + s.read_pos)
          (decode (load d (s.base + s.read_pos) header_size)) max_size m q.stored.0.size
          q.stored.0.checksum q.stored.0.payload h)
    where
      room :
          (s : Segment)
          → s.read_pos + 16 ≤ s.write_pos
          → s.write_pos ≤ s.capacity
          → s.capacity < 2 ^ 31
          → add32 s.read_pos header_size ≤ s.write_pos
      room s h k l = omega arith

  read_current-empty :
      is_drained (at b.segments b.current_read_segment) ≡ true
      → read_current b d max_size ≡ (code buffer_empty, [], b)
  unfolding read_current
  read_current-empty e = rw e refl

-- A read gave the first message of the queue at `index`, took it off, and left the other queues; it
-- was the current queue, if that had a message.
pub record IsRead (b : Buffer) (d : ℕ → ℕ) (qs : ℕ → Messages) (r : Answer × List ℕ × Buffer)
    : Type 0 where
  pub index : ℕ
  pub message : List ℕ
  pub rest : Messages
  pub present : index < b.num_segments
  pub first : qs b.current_read_segment ≢ [] → index ≡ b.current_read_segment
  pub queue : qs index ≡ message ∷ rest
  pub answer : r.0 ≡ number (length message)
  pub copied : r.1 ≡ message
  pub holds : Holds r.2.segments d (update qs index rest)
  pub buffer : IsBuffer r.2
  pub ready : r.2.is_initialized ≡ b.is_initialized
  pub places : SamePlaces b.segments r.2.segments

taken-IsBuffer : (b : Buffer) (m : List ℕ) → IsBuffer b → IsBuffer (taken b m)
taken-IsBuffer b m w = record {
  writes = w.writes;
  reads = w.reads;
  present = subst (λ n. b.num_segments ≤ n) (sym (length-set b.segments _ _)) w.present;
  few = w.few;
}

module _ (b : Buffer) (d : ℕ → ℕ) (max_size : ℕ) (qs : ℕ → Messages) (h : Holds b.segments d qs)
    (w : IsBuffer b) (k : max_message_size ≤ max_size) where
  read_current-IsRead :
      (i : ℕ) (m : List ℕ) (ms : Messages)
      → i < b.num_segments
      → (qs b.current_read_segment ≢ [] → i ≡ b.current_read_segment)
      → qs i ≡ m ∷ ms
      → IsRead b d qs (read_current (record b { current_read_segment = i }) d max_size)
  read_current-IsRead i m ms p f e =
      let q : IsQueue d (at b.segments i) (m ∷ ms) =
        subst (IsQueue d (at b.segments i)) e (h.queues i) in
      let b' : Buffer = record b { current_read_segment = i } in
      let w' : IsBuffer b' = record {
        writes = w.writes;
        reads = p;
        present = w.present;
        few = w.few;
      } in
      rw (read_current-queue b' d max_size q (omega (arith, q.stored.0.message.short))) (record {
        index = i;
        message = m;
        rest = ms;
        present = p;
        first = f;
        queue = e;
        answer = refl;
        copied = refl;
        holds =
            set-Holds b.segments d d qs i (advanced (at b.segments i) (length m)) ms h
              (omega (arith, p, w.present)) refl refl (advanced-IsQueue q) (λ o c. refl);
        buffer = taken-IsBuffer b' m w';
        ready = refl;
        places =
            set-SamePlaces b.segments i (advanced (at b.segments i) (length m))
              (omega (arith, p, w.present)) (refl, refl);
      })

  -- What a read comes to, given the current queue and what the search finds.
  abbrev Outcome : Answer × List ℕ × Buffer → Type 0
  Outcome r =
      (((i : ℕ) → i < b.num_segments → qs i ≡ []) × (r ≡ (code buffer_empty, [], b)))
      ⊎ IsRead b d qs r

  all_empty : IsSearched b b.num_segments 0 none → (i : ℕ) → i < b.num_segments → qs i ≡ []
  all_empty s i p =
      let (l, l-lt, e) = visited-onto b w i p in
      is_filled-queue (qs i) (h.queues i)
        (subst (λ x. is_filled (at b.segments x) ≡ false) e (s l (omega arith) (omega arith)))

  searched-Outcome :
      (o : Option ℕ)
      → qs b.current_read_segment ≡ []
      → IsSearched b b.num_segments 0 o
      → Outcome (read_current (with_read_segment b o) d max_size)
  unfolding with_read_segment
  searched-Outcome none e s = inl (
    all_empty s,
    read_current-empty b d max_size
        (is_drained-empty (subst (IsQueue d _) e (h.queues b.current_read_segment))),
  )
  searched-Outcome (some j) e (i, f, g) =
      let some_segment : 0 < b.num_segments = omega (arith, w.reads) in
      let (m, ms, l) = is_filled-some (qs j) (h.queues j) g in
      inr (
        read_current-IsRead j m ms
          (subst (λ x. x < b.num_segments) (sym f)
            (mod-lt (add32 b.current_read_segment i) some_segment))
          (λ n. absurd (n e)) l)

  at_current-Outcome :
      (q : Messages)
      → qs b.current_read_segment ≡ q
      → Outcome (read_current (find_filled b) d max_size)
  unfolding find_filled
  at_current-Outcome [] e =
      rw (is_drained-empty (subst (IsQueue d _) e (h.queues b.current_read_segment))) (
        searched-Outcome (next_filled b.num_segments 0 b) e
          (next_filled-IsSearched b.num_segments 0 b))
  at_current-Outcome (m ∷ ms) e =
      rw (is_drained-filled (subst (IsQueue d _) e (h.queues b.current_read_segment)))
        (inr (read_current-IsRead b.current_read_segment m ms w.reads (λ n. refl) e))

-- With room for the longest message, a read of a buffer whose segments are queues that share no byte
-- gives the first message of one of the queues, of the current one if that has a message, takes it
-- off that queue and leaves the others; or it says that the buffer is empty, and every queue is.
pub read_buffer-pop :
    (b : Buffer) (d : ℕ → ℕ) (max_size : ℕ) (qs : ℕ → Messages)
    → Holds b.segments d qs
    → IsBuffer b
    → max_message_size ≤ max_size
    → (((i : ℕ) → i < b.num_segments → qs i ≡ [])
        × (read_buffer b d max_size ≡ (code buffer_empty, [], b)))
      ⊎ IsRead b d qs (read_buffer b d max_size)
unfolding read_buffer
read_buffer-pop b d max_size qs h w k =
    at_current-Outcome b d max_size qs h w k (qs b.current_read_segment) refl
