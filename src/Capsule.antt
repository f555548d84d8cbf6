-- ===== src/Capsule.antt =====
-- src/capsule.c and include/capsule.h: a message wrapped with a header and a footer that carry an
-- additive checksum of the payload. The payload stays where the caller has it: a capsule holds its
-- address, so the functions that look at the bytes take the memory as it is at that time.
pub mod Integrity
use universal_multi_segmente.Prelude.{
  ℕ, zero, suc, ◌+◌, ◌%◌, ◌^◌, Bool, false, add32, ◌==◌, if◌then◌else◌,
}

-- Addresses to bytes.
abbrev pub Memory : Type 0
Memory = ℕ → ℕ

pub record CapsuleHeader : Type 0 where
  pub sequence : ℕ
  pub timestamp : ℕ
  pub checksum : ℕ

pub record CapsuleFooter : Type 0 where
  pub end_marker : ℕ
  pub checksum : ℕ

pub record MessageCapsule : Type 0 where
  pub header : CapsuleHeader
  pub payload : ℕ
  pub size : ℕ
  pub footer : CapsuleFooter

-- `sizeof(MessageCapsule)` where pointers and `size_t` have 8 bytes: 24 + 8 + 8 + 8.
abbrev pub capsule_size : ℕ
capsule_size = 48

abbrev pub capsule_end_marker : ℕ
capsule_end_marker = 0xdeadbeef

-- The loop of `capsule_checksum`, with the rounds that are left, `i` and `sum`.
pub checksum_loop : Memory → ℕ → ℕ → ℕ → ℕ → ℕ
checksum_loop m data_ptr zero i sum = sum
checksum_loop m data_ptr (suc n) i sum =
    checksum_loop m data_ptr n (i + 1) (add32 sum (m (data_ptr + i) % 256))

unfoldable pub capsule_checksum : Memory → ℕ → ℕ → ℕ
unfolding checksum_loop
capsule_checksum m data_ptr size = checksum_loop m data_ptr size 0 0

-- `time(NULL)` is the argument `now`.
unfoldable pub capsule_wrap : Memory → ℕ → ℕ → ℕ → ℕ → MessageCapsule
capsule_wrap m now seq msg size = record {
  header = record {
    sequence = seq;
    timestamp = now % 2 ^ 64;
    checksum = capsule_checksum m msg size;
  };
  payload = msg;
  size = size;
  footer = record { end_marker = capsule_end_marker; checksum = capsule_checksum m msg size };
}

unfoldable pub capsule_validate : Memory → MessageCapsule → Bool
capsule_validate m c =
    if c.footer.end_marker == capsule_end_marker
    then capsule_checksum m c.payload c.size == c.footer.checksum
    else false
