-- ===== src/Standalone/Queues.antt =====
-- The eight segments of a buffer of src/umsbb_complete_core.c as queues: what a write
-- adds to them.
use universal_multi_segmente.Prelude.{
  ℕ, zero, suc, ◌+◌, ◌≤◌, ◌≡◌, refl, subst, some, List, [], ◌∷◌, ◌++◌, arith, add_size, length,
  get_elem?, set,
}
use mathlib.Core.Option.{some-injective}
use universal_multi_segmente.Standalone.{success, Segment, Buffer}
use universal_multi_segmente.Standalone.Messages.{
  stride, select_write_segment, append_message, message_header, count_write, write_segment,
  write_selected, write_buffer,
}
use universal_multi_segmente.Standalone.Stored.{IsMessage}
use universal_multi_segmente.Standalone.Queue.{IsQueue, is_full-IsQueue, append_message-IsQueue}

-- A queue of messages, each a list of bytes.
abbrev pub Messages : Type 0
Messages = List (List ℕ)

-- Each segment is the queue at its place.
abbrev pub Queues : List Segment → List Messages → Type 0
Queues [] [] = Unit
Queues [] (q ∷ qs) = ⊥
Queues (s ∷ ss) [] = ⊥
Queues (s ∷ ss) (q ∷ qs) = IsQueue s q × Queues ss qs

pub Queues-get :
    (ss : List Segment) (qs : List Messages) (i : ℕ) (s : Segment) (q : Messages)
    → Queues ss qs
    → get_elem? ss i ≡ some s
    → get_elem? qs i ≡ some q
    → IsQueue s q
Queues-get [] [] i s q h e f = cc
Queues-get [] (r ∷ qs) i s q h e f = elim h [ ]
Queues-get (t ∷ ss) [] i s q h e f = elim h [ ]
Queues-get (t ∷ ss) (r ∷ qs) zero s q h e f =
    subst (λ x. IsQueue x q) (some-injective t s e)
      (subst (λ x. IsQueue t x) (some-injective r q f) h.0)
Queues-get (t ∷ ss) (r ∷ qs) (suc i) s q h e f = Queues-get ss qs i s q h.1 e f

pub Queues-set :
    (ss : List Segment) (qs : List Messages) (i : ℕ) (s : Segment) (q : Messages)
    → Queues ss qs
    → IsQueue s q
    → Queues (set ss i s) (set qs i q)
Queues-set [] [] i s q h v = h
Queues-set [] (r ∷ qs) i s q h v = elim h [ ]
Queues-set (t ∷ ss) [] i s q h v = elim h [ ]
Queues-set (t ∷ ss) (r ∷ qs) zero s q h v = (v, h.1)
Queues-set (t ∷ ss) (r ∷ qs) (suc i) s q h v = (h.0, Queues-set ss qs i s q h.1 v)

-- What a write comes to when there is room.
abbrev written : Buffer → ℕ → ℕ → Segment → List ℕ → Buffer
written b counter i s m =
    count_write
      (record b {
        segments = set b.segments i (
            append_message s
              (message_header (add_size b.total_messages_written 1) (add_size counter 1) m) m);
      })
      (length m) (add_size counter 1)

write_buffer-room :
    (b : Buffer) (counter : ℕ) (m : List ℕ) (i : ℕ) (s : Segment) (q : Messages)
    → select_write_segment b.segments ≡ i
    → get_elem? b.segments i ≡ some s
    → IsQueue s q
    → IsMessage m
    → s.write_pos + stride (length m) ≤ s.size
    → write_buffer b counter m ≡ (success, written b counter i s m, add_size counter 1)
unfolding write_buffer write_selected write_segment
write_buffer-room b counter m i s q c e v w fits = rw c (rw e (rw (is_full-IsQueue m v w fits)))

-- A message that fits behind the write position of the selected segment is added at the end of that
-- segment's queue, and no other queue changes.
pub write_buffer-push :
    (b : Buffer) (counter : ℕ) (m : List ℕ) (i : ℕ) (s : Segment) (qs : List Messages)
    (q : Messages)
    → Queues b.segments qs
    → select_write_segment b.segments ≡ i
    → get_elem? b.segments i ≡ some s
    → get_elem? qs i ≡ some q
    → IsMessage m
    → s.write_pos + stride (length m) ≤ s.size
    → let (code, b', counter') = write_buffer b counter m in
      (code ≡ success) × Queues b'.segments (set qs i (q ++ m ∷ []))
unfolding count_write
write_buffer-push b counter m i s qs q h c e f v fits =
    let w = Queues-get b.segments qs i s q h e f in
    rw (write_buffer-room b counter m i s q c e w v fits) (
      refl,
      Queues-set b.segments qs i _ (q ++ m ∷ []) h (
          append_message-IsQueue m w v fits (add_size b.total_messages_written 1)
            (add_size counter 1) (omega arith) (omega arith)),
    )
