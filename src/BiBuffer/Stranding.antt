-- ===== src/BiBuffer/Stranding.antt =====
-- A release in src/bi_buffer.c marks the next message as processed: it blocks what is queued behind.
use universal_multi_segmente.Prelude.{
  ℕ, zero, suc, ◌+◌, ◌*◌, ◌≤◌, ◌≡◌, ◌∙◌, ap, sym, subst, none, arith, inl, inr, ltb, Bool-cases,
  ltb→lt, ltb→ge,
}
use universal_multi_segmente.Capsule.{capsule_size}
use universal_multi_segmente.BiBuffer.{
  BiBuffer, ready, feedback, get_message_state, set_message_state, read, release, is_consuming,
}
use universal_multi_segmente.BiBuffer.Table.{get-set_ne, write_index-set}
use universal_multi_segmente.BiBuffer.Invariant.{IsValid, release-IsValid}
use universal_multi_segmente.BiBuffer.Effects.{
  state-commit_ne, read_index-release, commit_index-release, capacity-release, state-release_next,
  read-not_consuming,
}
use universal_multi_segmente.BiBuffer.Protocol.{offer, offer-fits, offer-full, offer-Offered}

-- A message is pending, and its state says that it was processed already.
pub record IsStranded (b : BiBuffer) : Type 0 where
  pub valid : IsValid b
  pub roomy : 16 ≤ b.capacity
  pub pending : b.read_index + capsule_size ≤ b.commit_index
  pub blocked : get_message_state b b.read_index ≡ feedback

pub release-IsStranded :
    {b : BiBuffer}
    → IsValid b
    → 16 ≤ b.capacity
    → b.read_index + 2 * capsule_size ≤ b.commit_index
    → IsStranded (release b)
release-IsStranded {b} v c h = record {
  valid = release-IsValid v (omega arith);
  roomy = omega (arith, capacity-release b);
  pending = omega (arith, read_index-release b, commit_index-release b);
  blocked =
      subst (λ p. get_message_state (release b) p ≡ feedback) (sym (read_index-release b))
        (state-release_next b v.table c v.small (omega arith));
}

read-IsStranded : {b : BiBuffer} → IsStranded b → read b ≡ none
read-IsStranded {b} s = read-not_consuming b (ap is_consuming s.blocked)

state-offer_read :
    {b : BiBuffer}
    → IsStranded b
    → b.write_index + capsule_size ≤ b.capacity
    → get_message_state (offer b) b.read_index ≡ feedback
state-offer_read {b} s h =
    let v = s.valid in
    rw (offer-fits v h) (
      state-commit_ne (set_message_state b b.write_index ready) capsule_size b.read_index
        (omega (arith, s.pending, v.committed, write_index-set b b.write_index ready))
      ∙ get-set_ne b b.write_index b.read_index ready (omega (arith, s.pending, v.committed))
      ∙ s.blocked)

offer-IsStranded : {b : BiBuffer} → IsStranded b → IsStranded (offer b)
offer-IsStranded {b} s = elim (Bool-cases (ltb b.capacity (b.write_index + capsule_size))) [
  | inl full ↦ rw (offer-full s.valid (ltb→lt _ _ full)) s
  | inr fits ↦
      let h = ltb→ge _ _ fits in
      let o = offer-Offered s.valid h in
      record {
        valid = o.valid;
        roomy = omega (arith, o.capacity_same, s.roomy);
        pending = omega (arith, o.read_same, o.commit_next, s.pending, s.valid.committed);
        blocked =
            subst (λ p. get_message_state (offer b) p ≡ feedback) (sym o.read_same)
              (state-offer_read s h);
      }
]

-- `n` offers of a message, one after the other.
pub offers : ℕ → BiBuffer → BiBuffer
offers zero b = b
offers (suc n) b = offers n (offer b)

offers-IsStranded : (n : ℕ) {b : BiBuffer} → IsStranded b → IsStranded (offers n b)
unfolding offers
offers-IsStranded zero s = s
offers-IsStranded (suc n) s = offers-IsStranded n (offer-IsStranded s)

-- With two or more messages pending in a buffer of 16 bytes or more, the release of the first makes
-- the second unreadable for good: after it, and after any number of further offers, a message is
-- still pending and `read` returns NULL.
pub release_strands :
    {b : BiBuffer} (n : ℕ)
    → IsValid b
    → 16 ≤ b.capacity
    → b.read_index + 2 * capsule_size ≤ b.commit_index
    → (read (offers n (release b)) ≡ none)
      × ((offers n (release b)).read_index + capsule_size ≤ (offers n (release b)).commit_index)
release_strands n v c h =
    let s = offers-IsStranded n (release-IsStranded v c h) in (read-IsStranded s, s.pending)
