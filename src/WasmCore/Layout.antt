-- ===== src/WasmCore/Layout.antt =====
-- The segments of a buffer of src/umsbb_wasm_core.c as queues that do not overlap in the heap.
use universal_multi_segmente.Prelude.{
  ℕ, ◌+◌, ◌≤◌, ◌<◌, ◌≡◌, sym, subst, ◌≢◌, inl, inr, false, List, arith, ◌==◌, ==_iff, ==_refl,
  Bool-cases, length, get_or, set, get_or-set_self, get_or-set_ne, update,
}
use universal_multi_segmente.WasmCore.{max_segments, Segment, Buffer}
use universal_multi_segmente.WasmCore.Buffers.{empty_segment}
use universal_multi_segmente.WasmCore.Stored.{SameOutside, Clear, IsQueue, IsQueue-SameOutside}

-- A queue of messages, each a list of bytes.
abbrev pub Messages : Type 0
Messages = List (List ℕ)

abbrev pub at : List Segment → ℕ → Segment
at ss i = get_or ss i empty_segment

abbrev pub ClearOf : Segment → Segment → Type 0
ClearOf s t = Clear s.base (s.base + s.capacity) t.base (t.base + t.capacity)

-- Each segment holds the queue at its place, and no two share a byte.
pub record Holds (ss : List Segment) (d : ℕ → ℕ) (qs : ℕ → Messages) : Type 0 where
  pub queues : (i : ℕ) → IsQueue d (at ss i) (qs i)
  pub apart : (i j : ℕ) → i ≢ j → ClearOf (at ss i) (at ss j)

-- The current segments are among those that the buffer has.
pub record IsBuffer (b : Buffer) : Type 0 where
  pub writes : b.current_write_segment < b.num_segments
  pub reads : b.current_read_segment < b.num_segments
  pub present : b.num_segments ≤ length b.segments
  pub few : b.num_segments ≤ max_segments

ne_of_false : (i j : ℕ) → (i == j) ≡ false → i ≢ j
ne_of_false i j h e = ground arith

-- What holds at the index that is written and elsewhere, holds everywhere.
pub by_index : (P : ℕ → Type 0) (i j : ℕ) → P i → (j ≢ i → P j) → P j
by_index P i j p q = elim (Bool-cases (j == i)) [
  | inl e ↦ subst P (sym ((==_iff j i).0 e)) p
  | inr e ↦ q (ne_of_false j i e)
]

pub update_self {ℓ} : {A : Type ℓ} (f : ℕ → A) (i : ℕ) (v : A) → update f i v i ≡ v
update_self f i v = rw (==_refl i)

pub ne→==_false : (i j : ℕ) → i ≢ j → (i == j) ≡ false
ne→==_false i j h = elim (Bool-cases (i == j)) [ inl e ↦ absurd (h ((==_iff i j).0 e)) | inr e ↦ e ]

pub update-ne {ℓ} : {A : Type ℓ} (f : ℕ → A) (i j : ℕ) (v : A) → j ≢ i → update f i v j ≡ f j
update-ne f i j v h = rw (ne→==_false j i h)

-- One segment gets other positions and the bytes of its own range change.
pub set-Holds :
    (ss : List Segment) (d d' : ℕ → ℕ) (qs : ℕ → Messages) (i : ℕ) (s : Segment) (q : Messages)
    → Holds ss d qs
    → i < length ss
    → s.base ≡ (at ss i).base
    → s.capacity ≡ (at ss i).capacity
    → IsQueue d' s q
    → SameOutside d d' (at ss i).base ((at ss i).base + (at ss i).capacity)
    → Holds (set ss i s) d' (update qs i q)
set-Holds ss d d' qs i s q h k b c v f = record {
  queues = λ j.
      by_index (λ j. IsQueue d' (at (set ss i s) j) (update qs i q j)) i j
        (rw (here, update_self qs i q) v) (λ n. rw (there j n, update-ne qs i j q n) (kept j n));
  apart = λ j l n.
      by_index (λ j. j ≢ l → ClearOf (at (set ss i s) j) (at (set ss i s) l)) i j
        (λ m. rw (here, there l (λ e. m (sym e)), b, c) (h.apart i l m))
        (λ m k.
          by_index (λ l. j ≢ l → ClearOf (at (set ss i s) j) (at (set ss i s) l)) i l
            (λ r. rw (here, there j r, b, c) (h.apart j i r))
            (λ r w. rw (there j m, there l r) (h.apart j l w)) k)
        n;
}
  where
    here : at (set ss i s) i ≡ s
    here = get_or-set_self ss i s empty_segment k

    there : (j : ℕ) → j ≢ i → at (set ss i s) j ≡ at ss j
    there j n = get_or-set_ne ss i j s empty_segment (λ e. n (sym e))

    kept : (j : ℕ) → j ≢ i → IsQueue d' (at ss j) (qs j)
    kept j n = IsQueue-SameOutside (h.queues j) d' _ _ f (h.apart j i n)
