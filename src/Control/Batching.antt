-- ===== src/Control/Batching.antt =====
-- How src/adaptive_batch.c moves the batch size.
use universal_multi_segmente.Prelude.{ℕ, ◌^◌, ◌≤◌, ◌<◌, ◌≡◌, refl, List, [], ◌∷◌, arith}
use universal_multi_segmente.Control.{AdaptiveBatch, batch_init, batch_next}

pub record IsBatch (b : AdaptiveBatch) : Type 0 where
  pub above : b.lowest ≤ b.current
  pub below : b.current ≤ b.highest
  pub highest_small : b.highest < 2 ^ 63
  pub step_small : b.step < 2 ^ 63

pub batch_init-IsBatch :
    (lowest highest step : ℕ)
    → lowest ≤ highest
    → highest < 2 ^ 63
    → step < 2 ^ 63
    → IsBatch (batch_init lowest highest step)
unfolding batch_init
batch_init-IsBatch lowest highest step h k l = omega arith

pub batch_next-IsBatch : {b : AdaptiveBatch} (score : ℕ) → IsBatch b → IsBatch (batch_next b score)
unfolding batch_next
batch_next-IsBatch score v = ground arith

-- The batch size after a list of scores.
pub scored : AdaptiveBatch → List ℕ → AdaptiveBatch
scored b [] = b
scored b (s ∷ ss) = scored (batch_next b s) ss

-- Whatever the scores, the batch size stays between its bounds, which stay as they are.
pub scored-IsBatch :
    (b : AdaptiveBatch) (ss : List ℕ)
    → IsBatch b
    → IsBatch (scored b ss)
      × ((scored b ss).lowest ≡ b.lowest)
      × ((scored b ss).highest ≡ b.highest)
unfolding scored batch_next
scored-IsBatch b [] v = (v, refl, refl)
scored-IsBatch b (s ∷ ss) v =
    ground (arith, scored-IsBatch (batch_next b s) ss (batch_next-IsBatch s v))
