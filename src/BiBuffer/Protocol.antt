-- ===== src/BiBuffer/Protocol.antt =====
-- One message through a drained buffer of src/bi_buffer.c.
use universal_multi_segmente.Prelude.{
  ℕ, ◌+◌, ◌^◌, ◌≤◌, ◌<◌, ◌≡◌, ◌∙◌, ap, sym, subst, Option, none, some, arith,
}
use universal_multi_segmente.Capsule.{capsule_size}
use universal_multi_segmente.BiBuffer.{
  BiBuffer, free, ready, consuming, get_message_state, set_message_state, claim, commit, read,
  release,
}
use universal_multi_segmente.BiBuffer.Table.{
  capacity-set, write_index-set, read_index-set, set_message_state-HasTable,
}
use universal_multi_segmente.BiBuffer.Invariant.{
  IsValid, set_message_state-IsValid, commit-IsValid, release-IsValid,
}
use universal_multi_segmente.BiBuffer.Effects.{
  read_index-commit, write_index-commit, commit_index-commit, capacity-commit, state-commit,
  read_index-release, write_index-release, commit_index-release, state-release_self, read-consuming,
  read-drained,
}

-- A claim and, if it succeeds, the commit of a message, as a producer makes them.
complete : Option ℕ × BiBuffer → BiBuffer
complete (none, c) = c
complete (some _, c) = commit c capsule_size

unfoldable pub offer : BiBuffer → BiBuffer
unfolding complete
offer b = complete (claim b capsule_size)

pub claim-fits :
    {b : BiBuffer} (size : ℕ)
    → IsValid b
    → b.write_index + size ≤ b.capacity
    → claim b size ≡ (some b.write_index, set_message_state b b.write_index ready)
unfolding claim
claim-fits {b} size v h = ground arith

pub claim-full :
    {b : BiBuffer} (size : ℕ)
    → IsValid b
    → b.capacity < b.write_index + size
    → b.write_index + size < 2 ^ 64
    → claim b size ≡ (none, b)
unfolding claim
claim-full {b} size v h k = ground arith

pub offer-fits :
    {b : BiBuffer}
    → IsValid b
    → b.write_index + capsule_size ≤ b.capacity
    → offer b ≡ commit (set_message_state b b.write_index ready) capsule_size
unfolding offer
offer-fits {b} v h = ap complete (claim-fits capsule_size v h)

pub offer-full :
    {b : BiBuffer} → IsValid b → b.capacity < b.write_index + capsule_size → offer b ≡ b
unfolding offer
offer-full {b} v h = ap complete (claim-full capsule_size v h (omega arith))

pub record Offered (b c : BiBuffer) : Type 0 where
  pub valid : IsValid c
  pub read_same : c.read_index ≡ b.read_index
  pub write_next : c.write_index ≡ b.write_index + capsule_size
  pub commit_next : c.commit_index ≡ b.write_index + capsule_size
  pub capacity_same : c.capacity ≡ b.capacity

pub offer-Offered :
    {b : BiBuffer} → IsValid b → b.write_index + capsule_size ≤ b.capacity → Offered b (offer b)
offer-Offered {b} v h = rw (offer-fits v h) (record {
  valid =
      commit-IsValid capsule_size w
        (omega (arith, write_index-set b b.write_index ready, capacity-set b b.write_index ready));
  read_same = read_index-commit _ capsule_size ∙ read_index-set b b.write_index ready;
  write_next = omega (
    arith,
    write_index-commit (set_message_state b b.write_index ready) capsule_size,
    write_index-set b b.write_index ready,
  );
  commit_next = omega (
    arith,
    commit_index-commit (set_message_state b b.write_index ready) capsule_size,
    write_index-set b b.write_index ready,
  );
  capacity_same = capacity-commit _ capsule_size ∙ capacity-set b b.write_index ready;
})
  where
    w : IsValid (set_message_state b b.write_index ready)
    w = set_message_state-IsValid b.write_index ready v

state-offer :
    {b : BiBuffer}
    → IsValid b
    → 16 ≤ b.capacity
    → b.write_index + capsule_size ≤ b.capacity
    → get_message_state (offer b) b.write_index ≡ consuming
state-offer {b} v c h = rw (offer-fits v h) (
    subst
      (λ w.
        get_message_state (commit (set_message_state b b.write_index ready) capsule_size) w
        ≡ consuming)
      (write_index-set b b.write_index ready)
      (state-commit (set_message_state b b.write_index ready) capsule_size
        (set_message_state-HasTable b b.write_index ready v.table)
        (omega (arith, capacity-set b b.write_index ready))
        (omega (arith, capacity-set b b.write_index ready, write_index-set b b.write_index ready))))

one_message_from :
    (b : BiBuffer)
    → 16 ≤ b.capacity
    → b.read_index ≡ b.write_index
    → b.write_index + capsule_size ≤ b.capacity
    → Offered b (offer b)
    → get_message_state (offer b) (offer b).read_index ≡ consuming
    → (read (offer b) ≡ some ((offer b).read_index, capsule_size))
      × IsValid (release (offer b))
      × ((release (offer b)).read_index ≡ (release (offer b)).write_index)
      × (read (release (offer b)) ≡ none)
      × (get_message_state (release (offer b)) (offer b).read_index ≡ free)
one_message_from b c d h o s =
    let v = o.valid in
    (
      read-consuming (offer b) (omega arith) s,
      release-IsValid v (omega arith),
      omega (arith, read_index-release (offer b), write_index-release (offer b)),
      read-drained (release (offer b))
          (omega (arith, read_index-release (offer b), commit_index-release (offer b))),
      state-release_self (offer b) v.table (omega arith) (omega arith),
    )

-- A message offered to a drained buffer with room for it is read next, at the offset where it was
-- written. Its release leaves the buffer valid and drained again, with its slot free.
pub one_message :
    {b : BiBuffer}
    → IsValid b
    → 16 ≤ b.capacity
    → b.read_index ≡ b.write_index
    → b.write_index + capsule_size ≤ b.capacity
    → (read (offer b) ≡ some (b.write_index, capsule_size))
      × IsValid (release (offer b))
      × ((release (offer b)).read_index ≡ (release (offer b)).write_index)
      × (read (release (offer b)) ≡ none)
      × (get_message_state (release (offer b)) b.write_index ≡ free)
one_message {b} v c d h =
    let o = offer-Offered v h in
    let at_read : (offer b).read_index ≡ b.write_index = o.read_same ∙ d in
    subst
      (λ p.
        (read (offer b) ≡ some (p, capsule_size))
        × IsValid (release (offer b))
        × ((release (offer b)).read_index ≡ (release (offer b)).write_index)
        × (read (release (offer b)) ≡ none)
        × (get_message_state (release (offer b)) p ≡ free))
      at_read
      (one_message_from b c d h o
        (subst (λ p. get_message_state (offer b) p ≡ consuming) (sym at_read) (state-offer v c h)))
