-- ===== src/BiBuffer/Table.antt =====
-- The message states in region C of src/bi_buffer.c.
use universal_multi_segmente.Prelude.{
  ℕ, ◌/◌, ◌≤◌, ◌<◌, ◌≡◌, ◌≢◌, arith, length, length-set, get_or-set_self, get_or-set_ne,
}
use universal_multi_segmente.Capsule.{capsule_size}
use universal_multi_segmente.BiBuffer.{
  BiBuffer, MessageState, free, get_message_state, set_message_state,
}

-- The table holds the whole states that fit in `capacity / 4` bytes.
abbrev pub HasTable : BiBuffer → Type 0
HasTable b = length b.region_c ≡ b.capacity / 4 / 4

pub set_message_state-HasTable :
    (b : BiBuffer) (o : ℕ) (s : MessageState) → HasTable b → HasTable (set_message_state b o s)
unfolding set_message_state
set_message_state-HasTable b o s t = ground (arith, length-set b.region_c (o / capsule_size) s)

-- The state of an offset inside a buffer of 16 bytes or more lies in the table.
pub state_in_table :
    (b : BiBuffer) (o : ℕ)
    → HasTable b
    → 16 ≤ b.capacity
    → o ≤ b.capacity
    → o / capsule_size < length b.region_c
state_in_table b o t c h = omega arith

pub get-set_self :
    (b : BiBuffer) (o : ℕ) (s : MessageState)
    → HasTable b
    → 16 ≤ b.capacity
    → o ≤ b.capacity
    → get_message_state (set_message_state b o s) o ≡ s
unfolding get_message_state set_message_state
get-set_self b o s t c h =
    ground (arith, state_in_table b o t c h, get_or-set_self b.region_c (o / capsule_size) s free)

pub get-set_ne :
    (b : BiBuffer) (o p : ℕ) (s : MessageState)
    → o / capsule_size ≢ p / capsule_size
    → get_message_state (set_message_state b o s) p ≡ get_message_state b p
unfolding get_message_state set_message_state
get-set_ne b o p s ne =
    ground (arith, get_or-set_ne b.region_c (o / capsule_size) (p / capsule_size) s free)

-- Only the table and the capacity decide a state.
pub get-congr :
    (b c : BiBuffer) (p : ℕ)
    → b.region_c ≡ c.region_c
    → b.capacity ≡ c.capacity
    → get_message_state b p ≡ get_message_state c p
unfolding get_message_state
get-congr b c p e f = ground arith

module _ (b : BiBuffer) (o : ℕ) (s : MessageState) where
  pub capacity-set : (set_message_state b o s).capacity ≡ b.capacity
  unfolding set_message_state
  capacity-set = ground arith

  pub write_index-set : (set_message_state b o s).write_index ≡ b.write_index
  unfolding set_message_state
  write_index-set = ground arith

  pub read_index-set : (set_message_state b o s).read_index ≡ b.read_index
  unfolding set_message_state
  read_index-set = ground arith

  pub commit_index-set : (set_message_state b o s).commit_index ≡ b.commit_index
  unfolding set_message_state
  commit_index-set = ground arith

  pub region_a-set : (set_message_state b o s).region_a ≡ b.region_a
  unfolding set_message_state
  region_a-set = ground arith
