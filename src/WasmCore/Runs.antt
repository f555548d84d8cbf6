-- ===== src/WasmCore/Runs.antt =====
-- Any calls of src/umsbb_wasm_core.c, one after the other.
use universal_multi_segmente.Prelude.{
  ℕ, zero, suc, ◌+◌, ◌-◌, ◌^◌, ◌≤◌, ◌<◌, ◌≡◌, refl, sym, ap, subst, if◌then◌else◌, Bool, not, true,
  false, Option, none, some, List, [], arith, length, replicate, update,
}
use universal_multi_segmente.WasmCore.{
  max_message_size, header_size, max_buffers, ErrorCode, success, invalid_params, buffer_full,
  buffer_empty, invalid_buffer, message_too_large, memory_allocation, system_not_initialized,
  Answer, number, code, Buffer, System, start,
}
use universal_multi_segmente.WasmCore.Buffers.{
  init_system, destroy_buffer, destroy_present, destroy_from, shutdown_system, create_buffer,
}
use universal_multi_segmente.WasmCore.Writing.{write_message}
use universal_multi_segmente.WasmCore.Reading.{read_message}
use universal_multi_segmente.WasmCore.Blocks.{IsHeap}
use universal_multi_segmente.WasmCore.Checksums.{Bytes}
use universal_multi_segmente.WasmCore.Layout.{Messages, at}
use universal_multi_segmente.WasmCore.Pushing.{next_index, pushed}
use universal_multi_segmente.WasmCore.Invariant.{slot, IsSystem}
use universal_multi_segmente.WasmCore.Slots.{
  IsCreated, create_buffer-IsCreated, destroy_buffer-IsSystem,
}
use universal_multi_segmente.WasmCore.Writes.{IsWritten, write_message-IsWritten}
use universal_multi_segmente.WasmCore.Reads.{IsTaken, read_message-IsTaken}

-- One call. A segment size does not come near 2 ^ 32, a message is not longer than the segment that it
-- may be put in, and a reader has room for the longest message.
pub data Call : System → System → Type 0 where
  init : (y : System) → Call y (init_system y).1
  shutdown : (y : System) → Call y (shutdown_system y).1
  create : (y : System) (size n : ℕ) → size < 2 ^ 32 - 2 ^ 24 → Call y (create_buffer y size n).1
  destroy : (y : System) (id : ℕ) → Call y (destroy_buffer y id).1
  write :
      (y : System) (id : ℕ) (m : List ℕ)
      → Bytes m
      → ((b : Buffer)
          → slot y.buffers id ≡ some b
          → header_size + length m ≤ (at b.segments (next_index b)).capacity)
      → Call y (write_message y id m).1
  read :
      (y : System) (id max_size : ℕ)
      → max_message_size ≤ max_size
      → Call y (read_message y id max_size).2

pub data Reach : System → Type 0 where
  begin : Reach start
  call : {y y' : System} → Reach y → Call y y' → Reach y'

slot-replicate : (n id : ℕ) → slot (replicate n none) id ≡ none
slot-replicate zero id = refl
slot-replicate (suc n) zero = refl
slot-replicate (suc n) (suc id) = slot-replicate n id

-- A state of which some queues are the queues.
abbrev IsQueued : System → Type 0
IsQueued y = (qs : ℕ → ℕ → Messages) × IsSystem y qs

pub blank-IsSystem :
    (y : System) → IsHeap y.heap → y.buffers ≡ replicate max_buffers none → IsSystem y (λ id i. [])
blank-IsSystem y h e = record {
  heap = h;
  slots = ap length e;
  live = λ id b f. absurd (nothing id b f);
  disjoint = λ id id' b c n f g. absurd (nothing id b f);
}
  where
    nothing : (id : ℕ) (b : Buffer) → slot y.buffers id ≡ some b → ⊥
    nothing id b f = let n : slot y.buffers id ≡ none = rw e (slot-replicate max_buffers id) in cc

flagged-IsQueued : (y : System) (t : Bool) → IsQueued y → IsQueued (record y { initialized = t })
flagged-IsQueued y t (qs, v) =
    (qs, record { heap = v.heap; slots = v.slots; live = v.live; disjoint = v.disjoint })

either :
    (t : Bool) (r r' : ErrorCode × System)
    → IsQueued r.1
    → IsQueued r'.1
    → IsQueued (if t then r else r').1
either true r r' p p' = p
either false r r' p p' = p'

init_system-IsQueued : (y : System) → IsQueued y → IsQueued (init_system y).1
unfolding init_system
init_system-IsQueued y (qs, v) =
    either y.initialized _ _ (qs, v)
      (
        (λ id i. []),
        blank-IsSystem (record y { buffers = replicate max_buffers none; initialized = true })
            v.heap refl,
      )

destroy_from-IsQueued : (n i : ℕ) (y : System) → IsQueued y → IsQueued (destroy_from n i y)
unfolding destroy_from
destroy_from-IsQueued zero i y v = v
destroy_from-IsQueued (suc n) i y (qs, v) =
    destroy_from-IsQueued n (i + 1) (destroy_present y i (slot y.buffers i))
      (present (slot y.buffers i))
  where
    present : (o : Option Buffer) → IsQueued (destroy_present y i o)
    present none = unfold destroy_present in (qs, v)
    present (some b) = unfold destroy_present in (qs, destroy_buffer-IsSystem y qs i v)

shutdown_system-IsQueued : (y : System) → IsQueued y → IsQueued (shutdown_system y).1
unfolding shutdown_system
shutdown_system-IsQueued y v = either (not y.initialized) _ _ v (
    flagged-IsQueued (destroy_from max_buffers 0 y) false (destroy_from-IsQueued max_buffers 0 y v))

pub IsCreated-IsQueued :
    (y : System) (qs : ℕ → ℕ → Messages) (r : Answer × System) → IsCreated y qs r → IsQueued r.1
IsCreated-IsQueued y qs (number id, y') c = (update qs id (λ i. []), c.2)
IsCreated-IsQueued y qs (code e, y') c = (qs, c.1)

IsWritten-IsQueued :
    (y : System) (qs : ℕ → ℕ → Messages) (id : ℕ) (m : List ℕ) (r : ErrorCode × System)
    → IsSystem y qs
    → IsWritten y qs id m r
    → IsQueued r.1
IsWritten-IsQueued y qs id m (success, y') v (b, e, w) = (update qs id (pushed b m (qs id)), w)
IsWritten-IsQueued y qs id m (invalid_params, y') v e = (qs, subst (λ x. IsSystem x qs) (sym e) v)
IsWritten-IsQueued y qs id m (buffer_full, y') v e = (qs, subst (λ x. IsSystem x qs) (sym e) v)
IsWritten-IsQueued y qs id m (buffer_empty, y') v e = (qs, subst (λ x. IsSystem x qs) (sym e) v)
IsWritten-IsQueued y qs id m (invalid_buffer, y') v e = (qs, subst (λ x. IsSystem x qs) (sym e) v)
IsWritten-IsQueued y qs id m (message_too_large, y') v e =
    (qs, subst (λ x. IsSystem x qs) (sym e) v)
IsWritten-IsQueued y qs id m (memory_allocation, y') v e =
    (qs, subst (λ x. IsSystem x qs) (sym e) v)
IsWritten-IsQueued y qs id m (system_not_initialized, y') v e =
    (qs, subst (λ x. IsSystem x qs) (sym e) v)

IsTaken-IsQueued :
    (y : System) (qs : ℕ → ℕ → Messages) (id : ℕ) (r : Answer × List ℕ × System)
    → IsSystem y qs
    → IsTaken y qs id r
    → IsQueued r.2
IsTaken-IsQueued y qs id (number n, m, y') v (i, rest, e, f, w) =
    (update qs id (update (qs id) i rest), w)
IsTaken-IsQueued y qs id (code e, m, y') v (f, g) = (qs, subst (λ x. IsSystem x qs) (sym f) v)

Call-IsQueued : {y y' : System} → Call y y' → IsQueued y → IsQueued y'
Call-IsQueued (init y) v = init_system-IsQueued y v
Call-IsQueued (shutdown y) v = shutdown_system-IsQueued y v
Call-IsQueued (create y size n h) (qs, v) =
    IsCreated-IsQueued y qs (create_buffer y size n) (create_buffer-IsCreated y qs size n v h)
Call-IsQueued (destroy y id) (qs, v) = (qs, destroy_buffer-IsSystem y qs id v)
Call-IsQueued (write y id m w f) (qs, v) =
    IsWritten-IsQueued y qs id m (write_message y id m) v (write_message-IsWritten y qs id m v w f)
Call-IsQueued (read y id max_size h) (qs, v) =
    IsTaken-IsQueued y qs id (read_message y id max_size) v
      (read_message-IsTaken y qs id max_size v h)

-- After any calls, of which no creation asks for a segment of nearly 2 ^ 32 bytes, no write is longer
-- than the segments and no read has less room than the longest message, the buffers in use are
-- queues of whole messages, in segments that lie in the allocated part of the heap and share no
-- byte, within a buffer and between buffers.
pub Reach-IsSystem : {y : System} → Reach y → (qs : ℕ → ℕ → Messages) × IsSystem y qs
Reach-IsSystem begin =
    ((λ id i. []), blank-IsSystem start (record { aligned = refl; within = omega arith }) refl)
Reach-IsSystem (call r c) = Call-IsQueued c (Reach-IsSystem r)
