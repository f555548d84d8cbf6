-- ===== src/BiBuffer/Invariant.antt =====
-- What every use of a buffer through src/bi_buffer.c keeps.
use universal_multi_segmente.Prelude.{
  ℕ, ◌+◌, ◌/◌, ◌^◌, ◌≤◌, ◌<◌, ◌≡◌, refl, none, some, arith, leb, length-replicate, if◌then◌else◌,
}
use universal_multi_segmente.BiBuffer.{
  BiBuffer, MessageState, free, ready, consuming, feedback, init, set_message_state, claim, commit,
  read, advance_feedback, release, resize,
}
use universal_multi_segmente.BiBuffer.Table.{
  HasTable, set_message_state-HasTable, capacity-set, write_index-set, read_index-set,
  commit_index-set,
}

pub record IsValid (b : BiBuffer) : Type 0 where
  pub table : HasTable b
  pub small : b.capacity < 2 ^ 63
  pub written : b.write_index ≤ b.capacity
  pub committed : b.commit_index ≡ b.write_index
  pub consumed : b.read_index ≤ b.commit_index

pub init-IsValid : (cap : ℕ) → cap < 2 ^ 63 → IsValid (init cap)
unfolding init
init-IsValid cap h = record {
  table = length-replicate (cap / 4 / 4) free;
  small = h;
  written = omega arith;
  committed = refl;
  consumed = omega arith;
}

pub set_message_state-IsValid :
    {b : BiBuffer} (o : ℕ) (s : MessageState) → IsValid b → IsValid (set_message_state b o s)
set_message_state-IsValid {b} o s v = ground (
  arith,
  set_message_state-HasTable b o s v.table,
  capacity-set b o s,
  write_index-set b o s,
  read_index-set b o s,
  commit_index-set b o s,
)

pub claim-IsValid : {b : BiBuffer} (size : ℕ) → IsValid b → IsValid (claim b size).1
unfolding claim
claim-IsValid {b} size v = ground (arith, set_message_state-IsValid b.write_index ready v)

-- On a valid buffer a claim of any size that does not wrap `size_t` succeeds, at the write index,
-- exactly when the size fits behind it.
pub claim_lem :
    {b : BiBuffer} (size : ℕ)
    → IsValid b
    → b.write_index + size < 2 ^ 64
    → (claim b size).0
      ≡ (if leb (b.write_index + size) b.capacity then some b.write_index else none)
unfolding claim
claim_lem {b} size v h = ground arith

-- A size that wraps the sum with the write index is accepted, whatever the capacity.
pub claim_wraps :
    {b : BiBuffer} (size : ℕ)
    → IsValid b
    → size < 2 ^ 64
    → 2 ^ 64 ≤ b.write_index + size
    → (claim b size).0 ≡ some b.write_index
unfolding claim
claim_wraps {b} size v s h = ground arith

pub commit-IsValid :
    {b : BiBuffer} (size : ℕ)
    → IsValid b
    → b.write_index + size ≤ b.capacity
    → IsValid (commit b size)
unfolding commit
commit-IsValid {b} size v h = set_message_state-IsValid b.write_index consuming (record {
  table = v.table;
  small = v.small;
  written = omega arith;
  committed = refl;
  consumed = omega arith;
})

pub advance_feedback-IsValid : {b : BiBuffer} → IsValid b → IsValid (advance_feedback b)
unfolding advance_feedback
advance_feedback-IsValid {b} v =
    let w = set_message_state-IsValid b.read_index feedback v in
    record {
      table = w.table;
      small = w.small;
      written = w.written;
      committed = w.committed;
      consumed = w.consumed;
    }

pub release-IsValid :
    {b : BiBuffer} → IsValid b → b.read_index + 48 ≤ b.commit_index → IsValid (release b)
unfolding release
release-IsValid {b} v h =
    let w = set_message_state-IsValid b.read_index feedback v in
    set_message_state-IsValid b.read_index free (
      advance_feedback-IsValid (record {
        table = w.table;
        small = w.small;
        written = w.written;
        committed = w.committed;
        consumed = omega (arith, commit_index-set b b.read_index feedback);
      }))

-- What `read` returns lies between the indices.
pub read-some :
    (b : BiBuffer) {o n : ℕ}
    → read b ≡ some (o, n)
    → (o ≡ b.read_index) × (n ≡ 48) × (b.read_index + 48 ≤ b.commit_index)
unfolding read
read-some b e = ground arith

-- The code's uses of a buffer: claim and commit a message of one size, be refused, release what
-- was read, start again with a new capacity.
pub data Step (b : BiBuffer) : BiBuffer → Type 0 where
  put :
      (size o : ℕ)
      → b.write_index + size < 2 ^ 64
      → (claim b size).0 ≡ some o
      → Step b (commit (claim b size).1 size)
  refuse : (size : ℕ) → (claim b size).0 ≡ none → Step b (claim b size).1
  take : (o n : ℕ) → read b ≡ some (o, n) → Step b (release b)
  restart : (cap : ℕ) → cap < 2 ^ 63 → Step b (resize b cap)

pub data Reach (b : BiBuffer) : BiBuffer → Type 0 where
  here : Reach b b
  next : {c d : BiBuffer} → Reach b c → Step c d → Reach b d

claim_fits :
    {b : BiBuffer} (size o : ℕ)
    → IsValid b
    → b.write_index + size < 2 ^ 64
    → (claim b size).0 ≡ some o
    → (claim b size).1.write_index + size ≤ (claim b size).1.capacity
unfolding claim
claim_fits {b} size o v h e =
    ground (arith, write_index-set b b.write_index ready, capacity-set b b.write_index ready)

pub Step-IsValid : {b c : BiBuffer} → Step b c → IsValid b → IsValid c
unfolding resize
Step-IsValid (put size o h e) v =
    commit-IsValid size (claim-IsValid size v) (claim_fits size o v h e)
Step-IsValid (refuse size e) v = claim-IsValid size v
Step-IsValid {b} (take o n e) v = release-IsValid v (read-some b e).2
Step-IsValid (restart cap h) v = init-IsValid cap h

-- Whatever sequence of these steps a fresh buffer goes through, all that is written lies inside the
-- region, and the read index never passes what is committed.
pub Reach-IsValid : {cap : ℕ} {b : BiBuffer} → cap < 2 ^ 63 → Reach (init cap) b → IsValid b
Reach-IsValid {cap} h here = init-IsValid cap h
Reach-IsValid h (next r s) = Step-IsValid s (Reach-IsValid h r)
