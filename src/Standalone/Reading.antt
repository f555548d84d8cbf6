-- ===== src/Standalone/Reading.antt =====
-- The eight segments of a buffer of src/umsbb_complete_core.c as queues: what a read takes from
-- them.
use universal_multi_segmente.Prelude.{
  ℕ, suc, ◌+◌, ◌≤◌, ◌<◌, ◌≡◌, refl, sym, ◌∙◌, subst, true, Option, none, some, List, [], ◌∷◌, arith,
  lt→ltb, length, get_elem?, set, All,
}
use universal_multi_segmente.Standalone.{
  ErrorCode, success, buffer_empty, max_message_size, Segment, Buffer,
}
use universal_multi_segmente.Standalone.Messages.{
  Output, no_output, first_filled, select_read_segment, count_read, read_segment, read_selected,
  read_buffer,
}
use universal_multi_segmente.Standalone.Queue.{
  IsQueue, advanced, advanced-IsQueue, read_result, read_segment-IsQueue,
}
use universal_multi_segmente.Standalone.Queues.{Messages, Queues}

-- The first message of the first queue that has one, and the queues without it.
abbrev behind : Option (List ℕ × List Messages) → Option (List ℕ × List Messages)
behind none = none
behind (some (m, qs)) = some (m, [] ∷ qs)

unfoldable pub pop : List Messages → Option (List ℕ × List Messages)
pop [] = none
pop ([] ∷ qs) = behind (pop qs)
pop ((m ∷ ms) ∷ qs) = some (m, ms ∷ qs)

-- The loop of `umsbb_select_read_segment`, from index `i` on, finds the queue that `m` is taken from.
record IsFound (ss : List Segment) (i : ℕ) (m : List ℕ) (qs : List Messages) : Type 0 where
  place : ℕ
  segment : Segment
  rest : Messages
  found : first_filled ss i ≡ i + place
  present : get_elem? ss place ≡ some segment
  queue : IsQueue segment (m ∷ rest)
  remaining : (s : Segment) → IsQueue s rest → Queues (set ss place s) qs

abbrev Found : List Segment → ℕ → Option (List ℕ × List Messages) → Type 0
Found ss i none = (first_filled ss i ≡ 0) × All (λ s. s.message_count ≡ 0) ss
Found ss i (some (m, qs)) = IsFound ss i m qs

first_filled-empty :
    (s : Segment) (ss : List Segment) (i : ℕ)
    → s.active ≡ true
    → s.message_count ≡ 0
    → first_filled (s ∷ ss) i ≡ first_filled ss (i + 1)
unfolding first_filled
first_filled-empty s ss i a h = rw (a, h)

first_filled-here :
    (s : Segment) (ss : List Segment) (i : ℕ)
    → s.active ≡ true
    → 0 < s.message_count
    → first_filled (s ∷ ss) i ≡ i
unfolding first_filled
first_filled-here s ss i a h = rw (a, lt→ltb 0 s.message_count h)

Found-behind :
    (s : Segment) (ss : List Segment) (i : ℕ) (o : Option (List ℕ × List Messages))
    → IsQueue s []
    → Found ss (i + 1) o
    → Found (s ∷ ss) i (behind o)
Found-behind s ss i none v f =
    (first_filled-empty s ss i v.active v.counted ∙ f.0, (v.counted, f.1))
Found-behind s ss i (some (m, qs)) v f = record {
  place = suc f.place;
  segment = f.segment;
  rest = f.rest;
  found = omega (arith, first_filled-empty s ss i v.active v.counted, f.found);
  present = f.present;
  queue = f.queue;
  remaining = λ t w. (v, f.remaining t w);
}

first_filled-pop :
    (ss : List Segment) (qs : List Messages) (i : ℕ) → Queues ss qs → Found ss i (pop qs)
unfolding pop
first_filled-pop [] [] i h = (unfold first_filled in refl, tt)
first_filled-pop [] (q ∷ qs) i h = elim h [ ]
first_filled-pop (s ∷ ss) [] i h = elim h [ ]
first_filled-pop (s ∷ ss) ([] ∷ qs) i h =
    Found-behind s ss i (pop qs) h.0 (first_filled-pop ss qs (i + 1) h.1)
first_filled-pop (s ∷ ss) ((m ∷ ms) ∷ qs) i h = record {
  place = 0;
  segment = s;
  rest = ms;
  found = omega (arith, first_filled-here s ss i h.0.active (omega (arith, h.0.counted)));
  present = refl;
  queue = h.0;
  remaining = λ t w. (w, h.1);
}

-- What a read is to give: the message that `pop` gives, with the queues that are left, or that the
-- buffer is empty.
abbrev pub IsRead :
    Buffer → ℕ → Option (List ℕ × List Messages) → ErrorCode × Output × Buffer × ℕ → Type 0
IsRead b counter none r = r ≡ (buffer_empty, no_output, b, counter)
IsRead b counter (some (m, qs)) (code, out, b', counter') =
    (code ≡ success)
    × (out ≡ record { copied = m; actual_size = some (length m) })
    × Queues b'.segments qs

read_buffer-none :
    (b : Buffer) (counter buffer_size : ℕ) (ss : List Segment) (s : Segment)
    → b.segments ≡ s ∷ ss
    → select_read_segment b.segments ≡ 0
    → s.message_count ≡ 0
    → read_buffer b counter buffer_size ≡ (buffer_empty, no_output, b, counter)
unfolding read_buffer read_selected read_segment
read_buffer-none b counter buffer_size ss s e f c = rw f (rw e (rw c))

read_buffer-found :
    (b : Buffer) (counter buffer_size i : ℕ) (s : Segment) (m : List ℕ) (ms : Messages)
    → select_read_segment b.segments ≡ i
    → get_elem? b.segments i ≡ some s
    → IsQueue s (m ∷ ms)
    → length m ≤ buffer_size
    → read_buffer b counter buffer_size ≡ read_result b counter i s m
unfolding read_buffer read_selected
read_buffer-found b counter buffer_size i s m ms e g q h =
    rw e (rw g (read_segment-IsQueue q b counter i buffer_size h))

read_buffer-IsRead :
    (b : Buffer) (counter buffer_size : ℕ) (s : Segment) (ss : List Segment)
    (o : Option (List ℕ × List Messages))
    → max_message_size ≤ buffer_size
    → b.segments ≡ s ∷ ss
    → Found b.segments 0 o
    → IsRead b counter o (read_buffer b counter buffer_size)
unfolding select_read_segment count_read
read_buffer-IsRead b counter buffer_size s ss none k e f =
    read_buffer-none b counter buffer_size ss s e (unfold select_read_segment in f.0)
      (subst (All (λ t. t.message_count ≡ 0)) e f.1).0
read_buffer-IsRead b counter buffer_size s ss (some (m, qs)) k e f =
    rw
      (read_buffer-found b counter buffer_size f.place f.segment m f.rest
        (unfold select_read_segment in (f.found ∙ omega arith)) f.present f.queue
        (omega (arith, k, f.queue.stored.0.message.short)))
      (refl, refl, f.remaining (advanced f.segment (length m)) (advanced-IsQueue f.queue))

-- In a buffer whose segments hold whole messages, one behind the other from the read position to the
-- write position, as they do until one of them wraps around: with room for the longest message, a
-- read gives the first message of the first segment that has one, and leaves the other messages; a
-- buffer without a message says that it is empty.
pub read_buffer-pop :
    (b : Buffer) (counter buffer_size : ℕ) (q : Messages) (qs : List Messages)
    → max_message_size ≤ buffer_size
    → Queues b.segments (q ∷ qs)
    → IsRead b counter (pop (q ∷ qs)) (read_buffer b counter buffer_size)
read_buffer-pop b counter buffer_size q qs k h = shaped b.segments refl h
  where
    shaped :
        (ss : List Segment)
        → b.segments ≡ ss
        → Queues ss (q ∷ qs)
        → IsRead b counter (pop (q ∷ qs)) (read_buffer b counter buffer_size)
    shaped [] e v = elim v [ ]
    shaped (s ∷ ss) e v =
        read_buffer-IsRead b counter buffer_size s ss (pop (q ∷ qs)) k e
          (subst (λ x. Found x 0 (pop (q ∷ qs))) (sym e) (first_filled-pop (s ∷ ss) (q ∷ qs) 0 v))
