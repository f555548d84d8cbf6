-- ===== src/Standalone/Handles.antt =====
-- The loop of `umsbb_get_next_handle` of src/umsbb_complete_core.c, and what a creation leaves.
use universal_multi_segmente.Prelude.{
  ℕ, zero, suc, ◌+◌, ◌-◌, ◌^◌, ◌≤◌, ◌<◌, ◌≡◌, refl, ap, ◌∙◌, subst, ◌≢◌, true, false, some, arith,
  ltb, ge→ltb, le→leb, lt→leb, ==_refl, ◌==◌, if◌then◌else◌, add32, update,
}
use native.Mathlib.Decide.{dec_lt}
use universal_multi_segmente.Standalone.{System, Buffer, max_buffers, magic_number}
use universal_multi_segmente.Standalone.Messages.{checked_buffer, find_buffer}
use universal_multi_segmente.Standalone.Registry.{
  next_handle_from, get_next_handle, new_buffer, create_buffer,
}

next_handle_from-small : (rounds n : ℕ) → n < 255 → next_handle_from (suc rounds) n ≡ some (n + 1)
unfolding next_handle_from
next_handle_from-small rounds n h = ground arith

pub ==_zero : (n : ℕ) → 0 < n → (n == 0) ≡ false
==_zero n h = ground arith

next_handle_from-skip :
    (rounds n : ℕ)
    → 255 ≤ n
    → n < 2 ^ 32 - 1
    → next_handle_from (suc rounds) n ≡ next_handle_from rounds (n + 1)
unfolding next_handle_from
next_handle_from-skip rounds n h k =
    let e : add32 n 1 ≡ n + 1 = omega arith in
    rw (e, ==_zero (n + 1) (omega arith), le→leb max_buffers (n + 1) (omega arith))

-- `d` rounds lead to the highest 32-bit number, and two more to the handle 1.
next_handle_from-large :
    (d rest n : ℕ)
    → 255 ≤ n
    → n + d ≡ 2 ^ 32 - 1
    → next_handle_from (suc (suc (d + rest))) n ≡ some 1
unfolding next_handle_from
next_handle_from-large zero rest n h e = ground arith
next_handle_from-large (suc d) rest n h e =
    next_handle_from-skip (suc (suc d + rest)) n h (omega arith)
    ∙ ap (λ r. next_handle_from (suc r) (n + 1)) {y = suc (d + rest)} (omega arith)
    ∙ next_handle_from-large d rest (n + 1) (omega arith) (omega arith)

next_handle_from-enough :
    (rounds n : ℕ)
    → 2 ^ 32 ≤ rounds
    → n < 2 ^ 32
    → next_handle_from rounds n ≡ some (if ltb n 255 then n + 1 else 1)
next_handle_from-enough rounds n h k = elim (dec_lt n 255) [
  | yes lt ↦
      subst (λ r. next_handle_from r n ≡ some (if ltb n 255 then n + 1 else 1))
        {x = suc (rounds - 1)} (omega arith)
        (next_handle_from-small (rounds - 1) n lt ∙ ground arith)
  | no ge ↦
      subst (λ r. next_handle_from r n ≡ some (if ltb n 255 then n + 1 else 1))
        {x = suc (suc ((2 ^ 32 - 1 - n) + (rounds - 2 - (2 ^ 32 - 1 - n))))} (omega arith)
        (next_handle_from-large (2 ^ 32 - 1 - n) (rounds - 2 - (2 ^ 32 - 1 - n)) n (omega arith)
            (omega arith)
          ∙ ground arith)
]

-- The search for a handle ends: it gives the number after the last handle, or 1 after handle 255.
pub get_next_handle_lem :
    (n : ℕ) → n < 2 ^ 32 → get_next_handle n ≡ some (if ltb n 255 then n + 1 else 1)
unfolding get_next_handle
get_next_handle_lem n h = next_handle_from-enough (2 ^ 32) n (omega arith) h

-- The handle that a creation gives after the last one.
abbrev pub next_after : ℕ → ℕ
next_after n = if ltb n 255 then n + 1 else 1

pub next_after-positive : (n : ℕ) → 0 < next_after n
next_after-positive n = ground arith

pub next_after-small : (n : ℕ) → next_after n < max_buffers
next_after-small n = ground arith

==_ne : (a b : ℕ) → a ≢ b → (a == b) ≡ false
==_ne a b h = ground arith

abbrev pub register : System → ℕ → Buffer → System
register y handle b = record y {
  buffers = update y.buffers handle (some b);
  next_handle = handle;
  active_buffers = add32 y.active_buffers 1;
}

pub create_buffer-grants :
    (y : System) (memory : ℕ → ℕ) (size_mb : ℕ)
    → y.next_handle < 2 ^ 32
    → 1 ≤ size_mb
    → size_mb ≤ 64
    → create_buffer y true true memory size_mb ≡ (
      next_after y.next_handle,
      register y (next_after y.next_handle) (new_buffer (next_after y.next_handle) size_mb memory),
    )
unfolding create_buffer
create_buffer-grants y memory size_mb n lo hi =
    rw (ge→ltb size_mb 1 lo, ge→ltb 64 size_mb hi, get_next_handle_lem y.next_handle n)

find_buffer-register_self :
    (y : System) (handle : ℕ) (b : Buffer)
    → 0 < handle
    → handle < max_buffers
    → b.initialized ≡ true
    → (b.magic == magic_number) ≡ true
    → find_buffer (register y handle b) handle ≡ some b
unfolding find_buffer checked_buffer
find_buffer-register_self y handle b lo hi i m =
    rw (==_zero handle lo, lt→leb max_buffers handle hi, ==_refl handle) (rw (i, m))

find_buffer-register_ne :
    (y : System) (handle other : ℕ) (b : Buffer)
    → other ≢ handle
    → find_buffer (register y handle b) other ≡ find_buffer y other
unfolding find_buffer
find_buffer-register_ne y handle other b ne = rw (==_ne other handle ne)

-- A creation with both blocks and a size from 1 to 64 MB gives a handle from 1 to 255, under which a
-- buffer of that size is then found; every other handle leads where it led before. The handle is
-- given whether or not a buffer is there.
pub create_buffer-find :
    (y : System) (memory : ℕ → ℕ) (size_mb : ℕ)
    → y.next_handle < 2 ^ 32
    → 1 ≤ size_mb
    → size_mb ≤ 64
    → let (handle, y') = create_buffer y true true memory size_mb in
      (0 < handle)
      × (handle < max_buffers)
      × (find_buffer y' handle ≡ some (new_buffer handle size_mb memory))
      × ((other : ℕ) → other ≢ handle → find_buffer y' other ≡ find_buffer y other)
      × (y'.next_handle ≡ handle)
create_buffer-find y memory size_mb n lo hi = rw (create_buffer-grants y memory size_mb n lo hi) (
  next_after-positive y.next_handle,
  next_after-small y.next_handle,
  find_buffer-register_self y (next_after y.next_handle)
      (new_buffer (next_after y.next_handle) size_mb memory) (next_after-positive y.next_handle)
      (next_after-small y.next_handle) (unfold new_buffer in refl) (unfold new_buffer in refl),
  λ other ne. find_buffer-register_ne y (next_after y.next_handle) other _ ne,
  refl,
)
