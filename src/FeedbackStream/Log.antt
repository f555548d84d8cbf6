-- ===== src/FeedbackStream/Log.antt =====
-- The log of src/feedback_stream.c as a bounded list.
use universal_multi_segmente.Prelude.{
  ℕ, zero, suc, ◌+◌, ◌≤◌, ◌<◌, ◌≡◌, refl, inl, inr, Option, some, List, [], ◌∷◌, ◌++◌, arith, ltb,
  if◌then◌else◌, ltb→lt, ltb→ge, Bool-cases,
}
use universal_multi_segmente.FeedbackStream.{
  FeedbackEntry, FeedbackStream, max_entries, feedback_push,
}

-- What a reader sees: the first `n` slots from `i` on.
pub view_from : FeedbackStream → ℕ → ℕ → List (Option FeedbackEntry)
view_from s zero i = []
view_from s (suc n) i = s.entries i ∷ view_from s n (i + 1)

pub view : FeedbackStream → List (Option FeedbackEntry)
unfolding view_from
view s = view_from s s.count 0

view_from-push :
    (s : FeedbackStream) (e : FeedbackEntry) (n i : ℕ)
    → i + n ≡ s.count
    → s.count < max_entries
    → view_from (feedback_push s e) (suc n) i ≡ view_from s n i ++ some e ∷ []
unfolding view_from feedback_push
view_from-push s e zero i h k = ground arith
view_from-push s e (suc n) i h k = ground (arith, view_from-push s e n (i + 1))

count-push :
    (s : FeedbackStream) (e : FeedbackEntry)
    → s.count < max_entries
    → (feedback_push s e).count ≡ suc s.count
unfolding feedback_push
count-push s e h = ground arith

push-full : (s : FeedbackStream) (e : FeedbackEntry) → max_entries ≤ s.count → feedback_push s e ≡ s
unfolding feedback_push
push-full s e h = ground arith

view-push_fits :
    (s : FeedbackStream) (e : FeedbackEntry)
    → s.count < max_entries
    → view (feedback_push s e) ≡ view s ++ some e ∷ []
unfolding view
view-push_fits s e h = rw (count-push s e h) (view_from-push s e s.count 0 (omega arith) h)

-- A push appends its entry to what a reader sees while there are fewer than 128 entries, and is
-- dropped from then on; the number of entries never passes 128.
pub view-push :
    (s : FeedbackStream) (e : FeedbackEntry)
    → s.count ≤ max_entries
    → (view (feedback_push s e)
        ≡ (if ltb s.count max_entries then view s ++ some e ∷ [] else view s))
      × ((feedback_push s e).count ≤ max_entries)
view-push s e h = elim (Bool-cases (ltb s.count max_entries)) [
  | inl fits ↦ rw fits (
    view-push_fits s e (ltb→lt _ _ fits),
    omega (arith, count-push s e (ltb→lt _ _ fits), ltb→lt _ _ fits),
  )
  | inr full ↦ rw (full, push-full s e (ltb→ge _ _ full)) (refl, h)
]
