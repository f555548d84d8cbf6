-- ===== src/BiBuffer/Effects.antt =====
-- What `bi_buffer_commit` and `bi_buffer_release` of src/bi_buffer.c do to each index and state.
use universal_multi_segmente.Prelude.{
  ℕ, ◌+◌, ◌/◌, ◌^◌, ◌≤◌, ◌<◌, ◌≡◌, ◌≢◌, refl, ◌∙◌, subst, false, none, some, arith, add_size,
}
use universal_multi_segmente.Capsule.{capsule_size}
use universal_multi_segmente.BiBuffer.{
  BiBuffer, free, consuming, feedback, get_message_state, set_message_state, commit, read,
  advance_feedback, release, is_consuming,
}
use universal_multi_segmente.BiBuffer.Table.{
  HasTable, get-set_self, get-set_ne, get-congr, capacity-set, write_index-set, read_index-set,
  commit_index-set, set_message_state-HasTable,
}

module _ (b : BiBuffer) (n : ℕ) where
  pub read_index-commit : (commit b n).read_index ≡ b.read_index
  unfolding commit
  read_index-commit = read_index-set _ b.write_index consuming

  pub write_index-commit : (commit b n).write_index ≡ add_size b.write_index n
  unfolding commit
  write_index-commit = write_index-set _ b.write_index consuming

  pub commit_index-commit : (commit b n).commit_index ≡ add_size b.write_index n
  unfolding commit
  commit_index-commit = commit_index-set _ b.write_index consuming

  pub capacity-commit : (commit b n).capacity ≡ b.capacity
  unfolding commit
  capacity-commit = capacity-set _ b.write_index consuming

  pub state-commit :
      HasTable b
      → 16 ≤ b.capacity
      → b.write_index ≤ b.capacity
      → get_message_state (commit b n) b.write_index ≡ consuming
  unfolding commit
  state-commit t c h = get-set_self _ b.write_index consuming t c h

pub state-commit_ne :
    (b : BiBuffer) (n p : ℕ)
    → b.write_index / capsule_size ≢ p / capsule_size
    → get_message_state (commit b n) p ≡ get_message_state b p
unfolding commit
state-commit_ne b n p ne = get-set_ne _ b.write_index p consuming ne ∙ get-congr _ b p refl refl

module _ (b : BiBuffer) where
  pub read_index-release : (release b).read_index ≡ add_size b.read_index capsule_size
  unfolding release advance_feedback
  read_index-release = read_index-set _ b.read_index free ∙ read_index-set _ _ feedback

  pub write_index-release : (release b).write_index ≡ b.write_index
  unfolding release advance_feedback
  write_index-release =
      write_index-set _ b.read_index free
      ∙ write_index-set _ _ feedback
      ∙ write_index-set b b.read_index feedback

  pub commit_index-release : (release b).commit_index ≡ b.commit_index
  unfolding release advance_feedback
  commit_index-release =
      commit_index-set _ b.read_index free
      ∙ commit_index-set _ _ feedback
      ∙ commit_index-set b b.read_index feedback

  pub capacity-release : (release b).capacity ≡ b.capacity
  unfolding release advance_feedback
  capacity-release =
      capacity-set _ b.read_index free
      ∙ capacity-set _ _ feedback
      ∙ capacity-set b b.read_index feedback

-- The first two assignments of a release.
skip : BiBuffer → BiBuffer
skip b = record (set_message_state b b.read_index feedback) {
  read_index = add_size b.read_index capsule_size;
}

release_stages :
    (b : BiBuffer) → release b ≡ set_message_state (advance_feedback (skip b)) b.read_index free
unfolding release skip
release_stages b = refl

capacity-advance : (b : BiBuffer) → (advance_feedback b).capacity ≡ b.capacity
unfolding advance_feedback
capacity-advance b = capacity-set b b.read_index feedback

advance_feedback-HasTable : (b : BiBuffer) → HasTable b → HasTable (advance_feedback b)
unfolding advance_feedback
advance_feedback-HasTable b t = set_message_state-HasTable b b.read_index feedback t

state-advance :
    (b : BiBuffer)
    → HasTable b
    → 16 ≤ b.capacity
    → b.read_index ≤ b.capacity
    → get_message_state (advance_feedback b) b.read_index ≡ feedback
unfolding advance_feedback
state-advance b t c h =
    get-congr _ _ b.read_index refl refl ∙ get-set_self b b.read_index feedback t c h

capacity-skip : (b : BiBuffer) → (skip b).capacity ≡ b.capacity
unfolding skip
capacity-skip b = capacity-set b b.read_index feedback

skip-HasTable : (b : BiBuffer) → HasTable b → HasTable (skip b)
unfolding skip
skip-HasTable b t = set_message_state-HasTable b b.read_index feedback t

read_index-skip : (b : BiBuffer) → (skip b).read_index ≡ add_size b.read_index capsule_size
unfolding skip
read_index-skip b = refl

-- What a release does to the table: the message that was read becomes free, and the state of the
-- message behind it becomes FEEDBACK, whatever it was.
pub state-release_self :
    (b : BiBuffer)
    → HasTable b
    → 16 ≤ b.capacity
    → b.read_index ≤ b.capacity
    → get_message_state (release b) b.read_index ≡ free
state-release_self b t c h = rw (release_stages b) (
    get-set_self (advance_feedback (skip b)) b.read_index free
      (advance_feedback-HasTable (skip b) (skip-HasTable b t))
      (omega (arith, capacity-advance (skip b), capacity-skip b))
      (omega (arith, capacity-advance (skip b), capacity-skip b)))

pub state-release_next :
    (b : BiBuffer)
    → HasTable b
    → 16 ≤ b.capacity
    → b.capacity < 2 ^ 63
    → b.read_index + capsule_size ≤ b.capacity
    → get_message_state (release b) (add_size b.read_index capsule_size) ≡ feedback
state-release_next b t c s h = rw (release_stages b) (
    subst
      (λ p.
        get_message_state (set_message_state (advance_feedback (skip b)) b.read_index free) p
        ≡ feedback)
      (read_index-skip b)
      (get-set_ne (advance_feedback (skip b)) b.read_index (skip b).read_index free
          (omega (arith, read_index-skip b))
        ∙ state-advance (skip b) (skip-HasTable b t) (omega (arith, capacity-skip b))
            (omega (arith, capacity-skip b, read_index-skip b))))

pub read-consuming :
    (b : BiBuffer)
    → b.read_index + capsule_size ≤ b.commit_index
    → get_message_state b b.read_index ≡ consuming
    → read b ≡ some (b.read_index, capsule_size)
unfolding read
read-consuming b h e = rw e (ground arith)

pub read-drained : (b : BiBuffer) → b.commit_index ≤ b.read_index → read b ≡ none
unfolding read
read-drained b h = ground arith

pub read-not_consuming :
    (b : BiBuffer) → is_consuming (get_message_state b b.read_index) ≡ false → read b ≡ none
unfolding read
read-not_consuming b e = ground arith
