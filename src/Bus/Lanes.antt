-- ===== src/Bus/Lanes.antt =====
-- A lane of the bus: a buffer that holds whole capsules, as `umsbb_submit_to` and
-- `umsbb_drain_from` use it.
use universal_multi_segmente.Prelude.{
  ℕ, ◌+◌, ◌%◌, ◌≤◌, ◌<◌, ◌≡◌, refl, sym, ap, ◌∙◌, subst, ◌≢◌, inl, inr, Option, none, some, arith,
  ◌==◌, ==_refl, update, Bool-cases, add_size,
}
use universal_multi_segmente.Capsule.{MessageCapsule, capsule_size}
use universal_multi_segmente.BiBuffer.{BiBuffer}
use universal_multi_segmente.BiBuffer.{
  free, ready, consuming, feedback, get_message_state, set_message_state, commit, read, release,
  advance_feedback,
}
use universal_multi_segmente.BiBuffer.Table.{
  write_index-set, read_index-set, capacity-set, region_a-set,
}
use universal_multi_segmente.BiBuffer.Invariant.{
  IsValid, set_message_state-IsValid, commit-IsValid, release-IsValid,
}
use universal_multi_segmente.BiBuffer.Effects.{
  state-commit, read-consuming, read-drained, read_index-commit, write_index-commit,
  capacity-commit, read_index-release, write_index-release, commit_index-release,
}
use universal_multi_segmente.Bus.{copy_capsule}

pub record IsLane (b : BiBuffer) : Type 0 where
  pub valid : IsValid b
  pub write_aligned : b.write_index % capsule_size ≡ 0
  pub read_aligned : b.read_index % capsule_size ≡ 0
  pub stored :
      (o : ℕ)
      → o % capsule_size ≡ 0
      → o < b.write_index
      → (c : MessageCapsule) × (b.region_a o ≡ some c)

-- What `umsbb_submit_to` makes of a lane that has room for a capsule.
unfoldable pub sent : BiBuffer → MessageCapsule → BiBuffer
sent b c =
    commit (copy_capsule (set_message_state b b.write_index ready) b.write_index c) capsule_size

region_a-commit : (b : BiBuffer) (n : ℕ) → (commit b n).region_a ≡ b.region_a
unfolding commit
region_a-commit b n = region_a-set _ b.write_index consuming

region_a-release : (b : BiBuffer) → (release b).region_a ≡ b.region_a
unfolding release advance_feedback
region_a-release b =
    region_a-set _ b.read_index free
    ∙ region_a-set _ _ feedback
    ∙ region_a-set b b.read_index feedback

copy_capsule-IsValid :
    (b : BiBuffer) (o : ℕ) (c : MessageCapsule) → IsValid b → IsValid (copy_capsule b o c)
unfolding copy_capsule
copy_capsule-IsValid b o c v = record {
  table = v.table;
  small = v.small;
  written = v.written;
  committed = v.committed;
  consumed = v.consumed;
}

module _ (b : BiBuffer) (c : MessageCapsule) where
  copied : BiBuffer
  copied = copy_capsule (set_message_state b b.write_index ready) b.write_index c

  write_index-copied : copied.write_index ≡ b.write_index
  unfolding copied copy_capsule
  write_index-copied = write_index-set b b.write_index ready

  read_index-copied : copied.read_index ≡ b.read_index
  unfolding copied copy_capsule
  read_index-copied = read_index-set b b.write_index ready

  capacity-copied : copied.capacity ≡ b.capacity
  unfolding copied copy_capsule
  capacity-copied = capacity-set b b.write_index ready

  region_a-copied : copied.region_a ≡ update b.region_a b.write_index (some c)
  unfolding copied copy_capsule
  region_a-copied = ap (λ r. update r b.write_index (some c)) (region_a-set b b.write_index ready)

  pub write_index-sent : (sent b c).write_index ≡ add_size b.write_index capsule_size
  unfolding sent copied
  write_index-sent =
      write_index-commit copied capsule_size ∙ ap (λ w. add_size w capsule_size) write_index-copied

  pub read_index-sent : (sent b c).read_index ≡ b.read_index
  unfolding sent copied
  read_index-sent = read_index-commit copied capsule_size ∙ read_index-copied

  pub capacity-sent : (sent b c).capacity ≡ b.capacity
  unfolding sent copied
  capacity-sent = capacity-commit copied capsule_size ∙ capacity-copied

  pub region_a-sent : (sent b c).region_a ≡ update b.region_a b.write_index (some c)
  unfolding sent copied
  region_a-sent = region_a-commit copied capsule_size ∙ region_a-copied

  pub sent-IsValid : IsValid b → b.write_index + capsule_size ≤ b.capacity → IsValid (sent b c)
  unfolding sent copied
  sent-IsValid v h =
      commit-IsValid capsule_size
        (copy_capsule-IsValid _ b.write_index c (set_message_state-IsValid b.write_index ready v))
        (omega (arith, write_index-copied, capacity-copied))

update-stored :
    (f : ℕ → Option MessageCapsule) (w : ℕ) (c : MessageCapsule) (o : ℕ)
    → (o ≢ w → (x : MessageCapsule) × (f o ≡ some x))
    → (x : MessageCapsule) × (update f w (some c) o ≡ some x)
update-stored f w c o h = elim (Bool-cases (o == w)) [
  | inl e ↦ rw e (c, refl)
  | inr e ↦ rw e (h (λ q. ground (arith, ==_refl w)))
]

pub sent-IsLane :
    {b : BiBuffer} (c : MessageCapsule)
    → IsLane b
    → b.write_index + capsule_size ≤ b.capacity
    → IsLane (sent b c)
sent-IsLane {b} c v h = record {
  valid = sent-IsValid b c v.valid h;
  write_aligned =
      omega (arith, write_index-sent b c, v.write_aligned, v.valid.written, v.valid.small);
  read_aligned = omega (arith, read_index-sent b c, v.read_aligned);
  stored = λ o a lt. rw (region_a-sent b c) (
      update-stored b.region_a b.write_index c o (λ ne.
        v.stored o a
          (omega (arith, write_index-sent b c, v.valid.written, v.valid.small, v.write_aligned))));
}

pub release-IsLane :
    {b : BiBuffer} → IsLane b → b.read_index + 48 ≤ b.commit_index → IsLane (release b)
release-IsLane {b} v h = record {
  valid = release-IsValid v.valid h;
  write_aligned = omega (arith, write_index-release b, v.write_aligned);
  read_aligned = omega (
    arith,
    read_index-release b,
    v.read_aligned,
    v.valid.written,
    v.valid.small,
    v.valid.committed,
  );
  stored = λ o a lt. rw (region_a-release b) (v.stored o a (omega (arith, write_index-release b)));
}

module _ {b : BiBuffer} (c : MessageCapsule) (v : IsLane b) (roomy : 16 ≤ b.capacity)
    (fits : b.write_index + capsule_size ≤ b.capacity) where
  state-sent : get_message_state (sent b c) b.write_index ≡ consuming
  unfolding sent copied
  state-sent =
      subst (λ w. get_message_state (commit (copied b c) capsule_size) w ≡ consuming)
        (write_index-copied b c)
        (state-commit (copied b c) capsule_size
          (copy_capsule-IsValid _ b.write_index c
            (set_message_state-IsValid b.write_index ready v.valid)).table
          (omega (arith, capacity-copied b c))
          (omega (arith, capacity-copied b c, write_index-copied b c)))

  commit_index-sent : (sent b c).commit_index ≡ b.write_index + capsule_size
  commit_index-sent =
      omega (arith, write_index-sent b c, (sent-IsLane c v fits).valid.committed, v.valid.small)

  -- A capsule sent to a drained lane is what is read from it next.
  pub read-sent :
      b.read_index ≡ b.write_index → read (sent b c) ≡ some (b.write_index, capsule_size)
  read-sent d =
      let at : (sent b c).read_index ≡ b.write_index = read_index-sent b c ∙ d in
      read-consuming (sent b c) (omega (arith, commit_index-sent, at))
        (subst (λ p. get_message_state (sent b c) p ≡ consuming) (sym at) state-sent)
      ∙ ap (λ p. some (p, capsule_size)) at

  pub stored-sent : (sent b c).region_a b.write_index ≡ some c
  stored-sent = rw (region_a-sent b c, ==_refl b.write_index)

  -- Once it is released, the lane is drained again.
  pub drained-release-sent :
      b.read_index ≡ b.write_index
      → ((release (sent b c)).read_index ≡ (release (sent b c)).write_index)
        × (read (release (sent b c)) ≡ none)
  drained-release-sent d = (
    omega (
      arith,
      read_index-release (sent b c),
      write_index-release (sent b c),
      read_index-sent b c,
      write_index-sent b c,
    ),
    read-drained (release (sent b c)) (
        omega (
          arith,
          read_index-release (sent b c),
          commit_index-release (sent b c),
          read_index-sent b c,
          commit_index-sent,
          v.valid.written,
          v.valid.small,
        )),
  )
