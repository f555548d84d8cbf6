-- ===== src/FeedbackStream.antt =====
-- src/feedback_stream.c and include/feedback_stream.h: a log of at most 128 entries. What the
-- renderer prints is a list of the printed values, one element for each line.
pub mod Log
use universal_multi_segmente.Prelude.{
  ℕ, zero, suc, ◌+◌, String, Option, none, some, List, [], ◌∷◌, ◌++◌, ltb, if◌then◌else◌, update,
}

pub data FeedbackType : Type 0 where
  ok corrupted gpu_executed cpu_executed throttled skipped idle : FeedbackType

pub record FeedbackEntry : Type 0 where
  pub sequence : ℕ
  pub type : FeedbackType
  pub note : String
  pub timestamp : ℕ

-- The slots that were never written hold nothing.
pub record FeedbackStream : Type 0 where
  pub entries : ℕ → Option FeedbackEntry
  pub count : ℕ

abbrev pub max_entries : ℕ
max_entries = 128

unfoldable pub feedback_push : FeedbackStream → FeedbackEntry → FeedbackStream
feedback_push s e =
    if ltb s.count max_entries
    then record { entries = update s.entries s.count (some e); count = s.count + 1 }
    else s

unfoldable pub type_str : FeedbackType → String
type_str ok = "OK"
type_str corrupted = "CORRUPTED"
type_str gpu_executed = "GPU"
type_str cpu_executed = "CPU"
type_str throttled = "THROTTLED"
type_str skipped = "SKIPPED"
type_str idle = "IDLE"

pub render_line : Option FeedbackEntry → List (ℕ × String × String × ℕ)
render_line none = []
render_line (some e) = (e.sequence, type_str e.type, e.note, e.timestamp) ∷ []

-- The loop of `feedback_render`, with the rounds that are left and `i`.
pub render_from : FeedbackStream → ℕ → ℕ → List (ℕ × String × String × ℕ)
unfolding render_line
render_from s zero i = []
render_from s (suc n) i = render_line (s.entries i) ++ render_from s n (i + 1)

unfoldable pub feedback_render : FeedbackStream → List (ℕ × String × String × ℕ)
unfolding render_from
feedback_render s = render_from s s.count 0

unfoldable pub feedback_clear : FeedbackStream → FeedbackStream
feedback_clear s = record s { count = 0 }
