-- ===== src/BiBuffer.antt =====
-- src/bi_buffer.c and include/bi_buffer.h: a one-way buffer of messages with a table of message
-- states. Addresses inside region A are offsets from its start. Region B is allocated and freed and
-- never accessed, so it has no field. Allocation is taken to succeed, as the code takes it.
pub mod Table
pub mod Invariant
pub mod Effects
pub mod Protocol
pub mod Lifetime
pub mod Stranding
use universal_multi_segmente.Prelude.{
  ℕ, ◌-◌, ◌/◌, Bool, true, false, ◌&&◌, ◌||◌, Option, none, some, List, [], add_size, ltb, leb,
  if◌then◌else◌, get_or, set, replicate,
}
use universal_multi_segmente.Capsule.{MessageCapsule, capsule_size}

pub data MessageState : Type 0 where
  free ready consuming feedback : MessageState

-- `region_a` gives the capsule that was last copied to an offset, and `region_c` the whole 4-byte
-- states that the `capacity / 4` bytes of region C hold.
pub record BiBuffer : Type 0 where
  pub region_a : ℕ → Option MessageCapsule
  pub region_c : List MessageState
  pub capacity : ℕ
  pub write_index : ℕ
  pub read_index : ℕ
  pub commit_index : ℕ
  pub feedback_index : ℕ

unfoldable pub init : ℕ → BiBuffer
init cap = record {
  region_a = λ _. none;
  region_c = replicate (cap / 4 / 4) free;
  capacity = cap;
  write_index = 0;
  read_index = 0;
  commit_index = 0;
  feedback_index = 0;
}

unfoldable pub get_message_state : BiBuffer → ℕ → MessageState
get_message_state b offset =
    let state_index = offset / capsule_size in
    if leb (b.capacity / 4) state_index then free else get_or b.region_c state_index free

-- A write past the table is undefined in C, and changes nothing here.
unfoldable pub set_message_state : BiBuffer → ℕ → MessageState → BiBuffer
set_message_state b offset state =
    let state_index = offset / capsule_size in
    if ltb state_index (b.capacity / 4)
    then record b { region_c = set b.region_c state_index state }
    else b

-- The offset that the returned pointer has in region A, or NULL.
unfoldable pub claim : BiBuffer → ℕ → Option ℕ × BiBuffer
claim b size =
    if ltb b.capacity (add_size w size)
      || (leb r w && ltb b.capacity (add_size w size))
      || (ltb w r && ltb r (add_size w size))
    then (none, b)
    else (some w, set_message_state b w ready)
  where
    open b use {write_index as w, read_index as r}

-- The pointer argument is not used by the code.
unfoldable pub commit : BiBuffer → ℕ → BiBuffer
commit b size =
    let w = b.write_index in
    set_message_state (record b { write_index = add_size w size; commit_index = add_size w size }) w
      consuming

abbrev pub is_consuming : MessageState → Bool
is_consuming consuming = true
is_consuming _ = false

-- The offset in region A and the value of `*size`, or NULL.
unfoldable pub read : BiBuffer → Option (ℕ × ℕ)
read b =
    if leb b.commit_index b.read_index
    then none
    else if is_consuming (get_message_state b b.read_index)
    then (if ltb (b.commit_index - b.read_index) capsule_size
        then none
        else some (b.read_index, capsule_size))
    else none

unfoldable pub advance_feedback : BiBuffer → BiBuffer
advance_feedback b = record (set_message_state b b.read_index feedback) {
  feedback_index = add_size b.read_index capsule_size;
}

unfoldable pub release : BiBuffer → BiBuffer
release b =
    let r = b.read_index in
    let b1 = set_message_state b r feedback in
    let b2 = record b1 { read_index = add_size r capsule_size } in
    let b3 = advance_feedback b2 in set_message_state b3 r free

-- New regions and zero indices, whatever the buffer held.
unfoldable pub resize : BiBuffer → ℕ → BiBuffer
unfolding init
resize b new_cap = init new_cap

-- The indices stay as they are.
unfoldable pub destroy : BiBuffer → BiBuffer
destroy b = record b { region_a = λ _. none; region_c = []; capacity = 0 }

unfoldable pub can_claim : BiBuffer → ℕ → Bool
can_claim b size = leb (add_size b.write_index size) b.capacity
