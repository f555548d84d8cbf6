-- ===== src/Standalone/Registered.antt =====
-- The buffers in the registry of src/umsbb_complete_core.c, under the calls that write and read.
use universal_multi_segmente.Prelude.{
  ℕ, ◌<◌, ◌≡◌, refl, ◌∙◌, true, Option, none, some, List, ge→ltb, lt→leb, ◌==◌, ==_refl, Bool-cases,
  inl, inr, length, get_elem?,
}
use universal_multi_segmente.Standalone.{
  max_message_size, max_buffers, magic_number, Segment, Buffer, System,
}
use universal_multi_segmente.Standalone.Messages.{
  stride, select_write_segment, checked_buffer, find_buffer, write_buffer, write_found,
  write_message, count_write, put, is_full, write_segment, write_selected, read_buffer, read_found,
  read_message,
}
use universal_multi_segmente.Standalone.Registry.{new_buffer}
use universal_multi_segmente.Standalone.Stored.{IsMessage}
use universal_multi_segmente.Standalone.Handles.{register, ==_zero}

-- A buffer is registered under a handle, and found there.
pub record IsRegistered (y : System) (handle : ℕ) (b : Buffer) : Type 0 where
  pub positive : 0 < handle
  pub small : handle < max_buffers
  pub entry : y.buffers handle ≡ some b
  pub initialized : b.initialized ≡ true
  pub magic : (b.magic == magic_number) ≡ true

find_buffer-IsRegistered :
    {y : System} {handle : ℕ} {b : Buffer} → IsRegistered y handle b → find_buffer y handle ≡ some b
unfolding find_buffer checked_buffer
find_buffer-IsRegistered {y} {handle} {b} r =
    rw (==_zero handle r.positive, lt→leb max_buffers handle r.small, r.entry)
      (rw (r.initialized, r.magic))

-- A write leaves the marks that a buffer is found by.
abbrev SameMarks : Buffer → Buffer → Type 0
SameMarks b b' = (b'.initialized ≡ b.initialized) × (b'.magic ≡ b.magic)

write_segment-SameMarks :
    (b : Buffer) (counter i : ℕ) (s : Segment) (m : List ℕ)
    → SameMarks b (write_segment b counter i s m).1
unfolding write_segment count_write
write_segment-SameMarks b counter i s m = elim (Bool-cases (is_full s (stride (length m)))) [
  | inl e ↦ rw e (refl, refl)
  | inr e ↦ rw e (refl, refl)
]

write_buffer-SameMarks :
    (b : Buffer) (counter : ℕ) (m : List ℕ) → SameMarks b (write_buffer b counter m).1
unfolding write_buffer write_selected
write_buffer-SameMarks b counter m =
    selected (select_write_segment b.segments)
      (get_elem? b.segments (select_write_segment b.segments))
  where
    selected : (i : ℕ) (o : Option Segment) → SameMarks b (write_selected b counter i m o).1
    selected i none = (refl, refl)
    selected i (some s) = write_segment-SameMarks b counter i s m

put-IsRegistered :
    {y : System} {handle : ℕ} {b : Buffer} (b' : Buffer) (counter : ℕ)
    → IsRegistered y handle b
    → b'.initialized ≡ true
    → (b'.magic == magic_number) ≡ true
    → IsRegistered (put y handle b' counter) handle b'
unfolding put
put-IsRegistered {y} {handle} b' counter r i m = record {
  positive = r.positive;
  small = r.small;
  entry = rw (==_refl handle) refl;
  initialized = i;
  magic = m;
}

pub write_message-IsRegistered :
    {y : System} {handle : ℕ} {b : Buffer} (m : List ℕ)
    → IsRegistered y handle b
    → IsMessage m
    → write_message y handle m ≡ (
      (write_buffer b y.counter m).0,
      put y handle (write_buffer b y.counter m).1 (write_buffer b y.counter m).2,
    )
unfolding write_message write_found
write_message-IsRegistered {y} {handle} {b} m r v =
    rw
      (
        ==_zero (length m) v.nonempty,
        ge→ltb max_message_size (length m) v.short,
        find_buffer-IsRegistered r,
      )
      refl

pub read_message-IsRegistered :
    {y : System} {handle : ℕ} {b : Buffer} (buffer_size : ℕ)
    → IsRegistered y handle b
    → 0 < buffer_size
    → read_message y handle buffer_size ≡ (
      (read_buffer b y.counter buffer_size).0,
      (read_buffer b y.counter buffer_size).1,
      put y handle (read_buffer b y.counter buffer_size).2 (read_buffer b y.counter buffer_size).3,
    )
unfolding read_message read_found
read_message-IsRegistered {y} {handle} {b} buffer_size r h =
    rw (==_zero buffer_size h, find_buffer-IsRegistered r) refl

module _ {y : System} {handle : ℕ} {b : Buffer} (r : IsRegistered y handle b) where
  pub write-IsRegistered :
      (counter : ℕ) (m : List ℕ)
      → IsRegistered
          (put y handle (write_buffer b counter m).1 (write_buffer b counter m).2)
          handle
          (write_buffer b counter m).1
  write-IsRegistered counter m =
      let (i, g) = write_buffer-SameMarks b counter m in
      put-IsRegistered _ _ r (i ∙ r.initialized) (rw g r.magic)

pub register-IsRegistered :
    (y : System) (handle size_mb : ℕ) (memory : ℕ → ℕ)
    → 0 < handle
    → handle < max_buffers
    → IsRegistered
        (register y handle (new_buffer handle size_mb memory))
        handle
        (new_buffer handle size_mb memory)
register-IsRegistered y handle size_mb memory lo hi = record {
  positive = lo;
  small = hi;
  entry = rw (==_refl handle) refl;
  initialized = unfold new_buffer in refl;
  magic = unfold new_buffer in refl;
}
