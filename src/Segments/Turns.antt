-- ===== src/Segments/Turns.antt =====
-- Whose turn it is in src/segment_ring.c.
use universal_multi_segmente.Prelude.{
  ℕ, zero, suc, ◌+◌, ◌%◌, ◌^◌, ◌≤◌, ◌<◌, ◌≡◌, refl, sym, ap, ◌∙◌, Option, none, some, List, [], ◌∷◌,
  arith, length, All,
}
use universal_multi_segmente.BiBuffer.{BiBuffer}
use universal_multi_segmente.BiBuffer
use universal_multi_segmente.BiBuffer.Invariant.{IsValid, init-IsValid}
use universal_multi_segmente.Segments.{
  SegmentRing, max_agents, init_buffers, segment_ring_init, segment_ring_next,
}
use native.Mathlib.Nat.{add-zero, mod-add-mod, mod-eq_of_lt}

pub record IsRing (r : SegmentRing) : Type 0 where
  pub counted : r.active_count ≡ length r.buffers
  pub at_most : r.active_count ≤ max_agents
  pub turn : r.current_index < r.active_count
  pub valid : All IsValid r.buffers

length-init_buffers : (n cap : ℕ) → length (init_buffers n cap) ≡ n
unfolding init_buffers
length-init_buffers zero cap = refl
length-init_buffers (suc n) cap = ap suc (length-init_buffers n cap)

pub init_buffers-All {ℓ} :
    (P : BiBuffer → Type ℓ) (n cap : ℕ) → P (BiBuffer.init cap) → All P (init_buffers n cap)
unfolding init_buffers
init_buffers-All P zero cap h = tt
init_buffers-All P (suc n) cap h = (h, init_buffers-All P n cap h)

pub segment_ring_init-IsRing : (n cap : ℕ) → 0 < n → cap < 2 ^ 63 → IsRing (segment_ring_init n cap)
unfolding segment_ring_init
segment_ring_init-IsRing n cap h s = record {
  counted = sym (length-init_buffers _ cap);
  at_most = ground arith;
  turn = ground arith;
  valid = init_buffers-All IsValid _ cap (init-IsValid cap s);
}

-- The ring after `k` calls of `segment_ring_next`, and the index that each returned.
pub turns : ℕ → SegmentRing → Option (List ℕ × SegmentRing)
turns zero r = some ([], r)
turns (suc k) r = elim (segment_ring_next r) [
  | none ↦ none
  | some (i, r') ↦ elim (turns k r') [ none ↦ none | some (is, r'') ↦ some (i ∷ is, r'') ]
]

-- The `k` indices from `i` on, going round at `n`.
unfoldable pub round : ℕ → ℕ → ℕ → List ℕ
round n i zero = []
round n i (suc k) = i ∷ round n ((i + 1) % n) k

pub next-IsRing :
    {r : SegmentRing}
    → IsRing r
    → segment_ring_next r
      ≡ some (r.current_index, record r { current_index = (r.current_index + 1) % r.active_count })
unfolding segment_ring_next
next-IsRing {r} v = ground arith

pub turned-IsRing :
    {r : SegmentRing}
    → IsRing r
    → IsRing (record r { current_index = (r.current_index + 1) % r.active_count })
turned-IsRing {r} v = record {
  counted = v.counted;
  at_most = v.at_most;
  turn = omega (arith, v.turn);
  valid = v.valid;
}

round-step : (n i k : ℕ) → 0 < n → ((i + 1) % n + k) % n ≡ (i + suc k) % n
round-step n i k h = rw mod-add-mod (ap (λ t. t % n) (omega arith))

-- Any number of calls on a ring with an active buffer gives the indices in turn, and leaves the
-- turn that many places further round.
pub turns_lem :
    (k : ℕ) (r : SegmentRing)
    → IsRing r
    → turns k r
      ≡ some (
        round r.active_count r.current_index k,
        record r { current_index = (r.current_index + k) % r.active_count },
      )
unfolding turns round
turns_lem zero r v =
    ap (λ c. some ([], record r { current_index = c }))
      (sym (ap (λ c. c % r.active_count) (add-zero r.current_index) ∙ mod-eq_of_lt v.turn))
turns_lem (suc k) r v =
    rw (next-IsRing v, turns)
      (rw (turns_lem k _ (turned-IsRing v), turns)
        (ap
          (λ c. some (
            r.current_index ∷ round r.active_count ((r.current_index + 1) % r.active_count) k,
            record r { current_index = c },
          ))
          (round-step r.active_count r.current_index k (omega (arith, v.turn)))))
