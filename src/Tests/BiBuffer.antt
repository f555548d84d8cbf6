-- ===== src/Tests/BiBuffer.antt =====
-- Runs of src/bi_buffer.c, and its theorems at a buffer of 480 bytes.
use universal_multi_segmente.Prelude.{◌+◌, ◌*◌, ◌≤◌, ◌≡◌, refl, none, some, List, [], ◌∷◌, arith}
use universal_multi_segmente.BiBuffer
use universal_multi_segmente.BiBuffer.{
  BiBuffer, ready, get_message_state, set_message_state, claim, commit, read, release,
  advance_feedback,
}
use universal_multi_segmente.BiBuffer.Invariant.{IsValid, init-IsValid}
use universal_multi_segmente.BiBuffer.Protocol.{offer, Offered, offer-Offered}
use universal_multi_segmente.BiBuffer.Stranding.{offers, release_strands}
use universal_multi_segmente.BiBuffer.Lifetime.{
  Use, produce, consume, perform_all, accepted, lifetime,
}

fresh-IsValid : IsValid (BiBuffer.init 480)
fresh-IsValid = init-IsValid 480 (omega arith)

capacity-init : (BiBuffer.init 480).capacity ≡ 480
unfolding BiBuffer.init
capacity-init = refl

write_index-init : (BiBuffer.init 480).write_index ≡ 0
unfolding BiBuffer.init
write_index-init = refl

read_index-init : (BiBuffer.init 480).read_index ≡ 0
unfolding BiBuffer.init
read_index-init = refl

abbrev one : BiBuffer
one = offer (BiBuffer.init 480)

abbrev two : BiBuffer
two = offer one

one-Offered : Offered (BiBuffer.init 480) one
one-Offered = offer-Offered fresh-IsValid (omega (arith, capacity-init, write_index-init))

two-Offered : Offered one two
two-Offered = offer-Offered (one-Offered.valid) (
    omega
      (arith, capacity-init, write_index-init, one-Offered.write_next, one-Offered.capacity_same))

abbrev uses : List Use
uses = produce ∷ consume ∷ produce ∷ []

lifetime_example :
    IsValid (perform_all (BiBuffer.init 480) uses)
    × ((perform_all (BiBuffer.init 480) uses).write_index
        ≡ 0 + 48 * accepted (BiBuffer.init 480) uses)
    × (0 + 48 * accepted (BiBuffer.init 480) uses ≤ 480)
unfolding BiBuffer.init
lifetime_example = lifetime uses fresh-IsValid

release_strands_example :
    (read (offers 3 (release two)) ≡ none)
    × ((offers 3 (release two)).read_index + 48 ≤ (offers 3 (release two)).commit_index)
release_strands_example =
    release_strands 3 two-Offered.valid
      (omega (arith, capacity-init, one-Offered.capacity_same, two-Offered.capacity_same))
      (omega (arith, read_index-init, write_index-init, one-Offered, two-Offered))

claimed : claim (BiBuffer.init 480) 48 ≡ (some 0, set_message_state (BiBuffer.init 480) 0 ready)
unfolding BiBuffer.init claim
claimed = refl

-- The second of two messages cannot be read once the first is released.
second_is_lost : read (release two) ≡ none
unfolding BiBuffer.init offer claim commit read release advance_feedback set_message_state
    get_message_state
second_is_lost = refl
