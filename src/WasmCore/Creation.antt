-- ===== src/WasmCore/Creation.antt =====
-- The segments that `umsbb_create_buffer` of src/umsbb_wasm_core.c allocates.
use universal_multi_segmente.Prelude.{
  ℕ, zero, suc, ◌+◌, ◌-◌, ◌^◌, ◌≤◌, ◌<◌, ◌≡◌, refl, sym, ap, ◌∙◌, ◌≢◌, ◌⊎◌, inl, inr, Option, none,
  some, List, [], ◌∷◌, ◌++◌, arith, length, length-append, replicate, subst,
}
use universal_multi_segmente.WasmCore.{max_segments, Segment, Heap}
use universal_multi_segmente.WasmCore.Memory.{heap_size, wasm_malloc}
use universal_multi_segmente.WasmCore.Buffers.{
  empty_segment, add_segment, allocate_segments, new_buffer,
}
use universal_multi_segmente.WasmCore.Blocks.{IsHeap, IsAllocation, wasm_malloc-IsAllocation}
use universal_multi_segmente.WasmCore.Stored.{SameOutside, IsQueue}
use universal_multi_segmente.WasmCore.Layout.{at, ClearOf, Holds, IsBuffer}

-- The second heap is the first after some allocations: what was allocated before is as it was.
pub record IsGrown (m m' : Heap) : Type 0 where
  pub heap : IsHeap m'
  pub grows : m.heap_pos ≤ m'.heap_pos
  pub kept : SameOutside m.bytes m'.bytes m.heap_pos m'.heap_pos

IsGrown-refl : {m : Heap} → IsHeap m → IsGrown m m
IsGrown-refl v = record { heap = v; grows = omega arith; kept = λ o h. refl }

pub IsGrown-trans : {m m' m'' : Heap} → IsGrown m m' → IsGrown m' m'' → IsGrown m m''
IsGrown-trans p q = record {
  heap = q.heap;
  grows = omega (arith, p.grows, q.grows);
  kept = λ o h.
      q.kept o (elim h [ inl l ↦ inl (omega (arith, p.grows)) | inr l ↦ inr l ])
      ∙ p.kept o (elim h [ inl l ↦ inl l | inr l ↦ inr (omega (arith, q.grows)) ]);
}

-- Empty segments of `size` bytes, one behind the other from offset `lo` to offset `hi`.
abbrev pub Laid : ℕ → ℕ → List Segment → ℕ → Type 0
Laid size lo [] hi = lo ≤ hi
Laid size lo (s ∷ ss) hi =
    (s ≡ record empty_segment { base = s.base; capacity = size })
    × (lo ≤ s.base)
    × Laid size (s.base + size) ss hi

Laid-le : (size lo : ℕ) (ss : List Segment) (hi : ℕ) → Laid size lo ss hi → lo ≤ hi
Laid-le size lo [] hi l = l
Laid-le size lo (s ∷ ss) hi l = omega (arith, l.1, Laid-le size (s.base + size) ss hi l.2)

Laid-lower :
    (size lo lo' : ℕ) (ss : List Segment) (hi : ℕ)
    → lo' ≤ lo
    → Laid size lo ss hi
    → Laid size lo' ss hi
Laid-lower size lo lo' [] hi h l = omega arith
Laid-lower size lo lo' (s ∷ ss) hi h l = (l.0, omega (arith, l.1), l.2)

-- What a round of the loop, or all its rounds, may come to.
abbrev pub Allocated : ℕ → Heap → ℕ → Option (List Segment) × Heap → Type 0
Allocated n m size (none, m') = IsGrown m m'
Allocated n m size (some ss, m') =
    IsGrown m m' × Laid size m.heap_pos ss m'.heap_pos × (length ss ≡ n)

pub wasm_malloc-IsGrown :
    {m m' : Heap} (size : ℕ) (o : Option ℕ) → IsHeap m → IsAllocation m size (o, m') → IsGrown m m'
wasm_malloc-IsGrown {m} size none v a = subst (IsGrown m) (sym a.1) (IsGrown-refl v)
wasm_malloc-IsGrown {m} {m'} size (some p) v a = record {
  heap = a.3;
  grows = omega (arith, a.0, a.2);
  kept = λ o h. a.5 o (subst (λ x. (o < x) ⊎ (m'.heap_pos ≤ o)) (sym a.0) h);
}

add_segment-Allocated :
    (n size : ℕ) (m m' : Heap) (o : Option ℕ) (rest : Option (List Segment) × Heap)
    → IsHeap m
    → IsAllocation m size (o, m')
    → Allocated n m' size rest
    → Allocated (suc n) m size (add_segment size o m' rest)
unfolding add_segment
add_segment-Allocated n size m m' none rest v a r = wasm_malloc-IsGrown size none v a
add_segment-Allocated n size m m' (some p) (none, m'') v a r =
    IsGrown-trans (wasm_malloc-IsGrown size (some p) v a) r
add_segment-Allocated n size m m' (some p) (some ss, m'') v a r = (
  IsGrown-trans (wasm_malloc-IsGrown size (some p) v a) r.0,
  (refl, omega (arith, a.0), Laid-lower size m'.heap_pos (p + size) ss m''.heap_pos a.2 r.1),
  ap suc r.2,
)

pub IsAllocation-heap :
    (m : Heap) (size : ℕ) (r : Option ℕ × Heap) → IsHeap m → IsAllocation m size r → IsHeap r.1
IsAllocation-heap m size (none, m') v a = subst IsHeap (sym a.1) v
IsAllocation-heap m size (some p, m') v a = a.3

pub allocate_segments-Allocated :
    (n : ℕ) (m : Heap) (size : ℕ)
    → IsHeap m
    → size < 2 ^ 32 - 2 ^ 24
    → Allocated n m size (allocate_segments n m size)
unfolding allocate_segments
allocate_segments-Allocated zero m size v h = (IsGrown-refl v, omega arith, refl)
allocate_segments-Allocated (suc n) m size v h =
    let a = wasm_malloc-IsAllocation m size v h in
    let m' = (wasm_malloc m size).1 in
    add_segment-Allocated n size m m' (wasm_malloc m size).0 (allocate_segments n m' size) v a
      (allocate_segments-Allocated n m' size (IsAllocation-heap m size (wasm_malloc m size) v a) h)

-- A segment that was laid, or none.
abbrev pub Place : ℕ → ℕ → ℕ → Segment → Type 0
Place size lo hi s =
    (s ≡ empty_segment)
    ⊎ ((s ≡ record empty_segment { base = s.base; capacity = size })
        × (lo ≤ s.base)
        × (s.base + size ≤ hi))

Laid-Place :
    (size lo : ℕ) (ss : List Segment) (hi i : ℕ) → Laid size lo ss hi → Place size lo hi (at ss i)
Laid-Place size lo [] hi i l = inl refl
Laid-Place size lo (s ∷ ss) hi zero l = inr (l.0, l.1, Laid-le size (s.base + size) ss hi l.2)
Laid-Place size lo (s ∷ ss) hi (suc i) l =
    lower (at ss i) (Laid-Place size (s.base + size) ss hi i l.2)
  where
    lower : (t : Segment) → Place size (s.base + size) hi t → Place size lo hi t
    lower t (inl e) = inl e
    lower t (inr (e, p, q)) = inr (e, omega (arith, l.1), q)

Place-ClearOf :
    (size size' lo hi : ℕ) (s t : Segment)
    → s ≡ record empty_segment { base = s.base; capacity = size' }
    → s.base + size' ≤ lo
    → Place size lo hi t
    → ClearOf s t × ClearOf t s
Place-ClearOf size size' lo hi s t e h (inl f) = rw (e, f) (inr (omega arith), inl (omega arith))
Place-ClearOf size size' lo hi s t e h (inr (f, p, q)) =
    let c : s.capacity ≡ size' = ap (λ x. x.capacity) e in (inl (omega arith), inr (omega arith))

Laid-ClearOf :
    (size lo : ℕ) (ss : List Segment) (hi i j : ℕ)
    → Laid size lo ss hi
    → i ≢ j
    → ClearOf (at ss i) (at ss j)
Laid-ClearOf size lo [] hi i j l n = inl (omega arith)
Laid-ClearOf size lo (s ∷ ss) hi zero zero l n = absurd (n refl)
Laid-ClearOf size lo (s ∷ ss) hi zero (suc j) l n =
    (Place-ClearOf size size (s.base + size) hi s (at ss j) l.0 (omega arith)
      (Laid-Place size (s.base + size) ss hi j l.2)).0
Laid-ClearOf size lo (s ∷ ss) hi (suc i) zero l n =
    (Place-ClearOf size size (s.base + size) hi s (at ss i) l.0 (omega arith)
      (Laid-Place size (s.base + size) ss hi i l.2)).1
Laid-ClearOf size lo (s ∷ ss) hi (suc i) (suc j) l n =
    Laid-ClearOf size (s.base + size) ss hi i j l.2 (λ e. n (ap suc e))

at-append_blank : (ss : List Segment) (k i : ℕ) → at (ss ++ replicate k empty_segment) i ≡ at ss i
at-append_blank [] zero i = refl
at-append_blank [] (suc k) zero = refl
at-append_blank [] (suc k) (suc i) = at-append_blank [] k i
at-append_blank (s ∷ ss) k zero = refl
at-append_blank (s ∷ ss) k (suc i) = at-append_blank ss k i

module _ (size n lo : ℕ) (ss : List Segment) (hi : ℕ) (l : Laid size lo ss hi)
    (h : hi ≤ heap_size) where
  Place-IsQueue : (d : ℕ → ℕ) (s : Segment) → Place size lo hi s → IsQueue d s []
  Place-IsQueue d s (inl e) =
      rw e (record { stored = refl; counted = refl; within = omega arith; small = omega arith })
  Place-IsQueue d s (inr (e, p, q)) =
      rw e (record { stored = refl; counted = refl; within = omega arith; small = omega arith })

  -- The segments of a new buffer are empty queues.
  pub new_buffer-Holds : (d : ℕ → ℕ) → Holds (new_buffer size n ss).segments d (λ i. [])
  unfolding new_buffer
  new_buffer-Holds d = record {
    queues = λ i.
        rw (at-append_blank ss (max_segments - n) i)
          (Place-IsQueue d (at ss i) (Laid-Place size lo ss hi i l));
    apart = λ i j k.
        rw (at-append_blank ss (max_segments - n) i, at-append_blank ss (max_segments - n) j)
          (Laid-ClearOf size lo ss hi i j l k);
  }

  pub new_buffer-IsBuffer :
      0 < n → n ≤ max_segments → length ss ≡ n → IsBuffer (new_buffer size n ss)
  unfolding new_buffer
  new_buffer-IsBuffer p q e = record {
    writes = p;
    reads = p;
    present = omega (arith, length-append ss (replicate (max_segments - n) empty_segment), e);
    few = q;
  }

  -- Each segment of a new buffer is blank, or lies where it was allocated.
  pub new_buffer-Place : (i : ℕ) → Place size lo hi (at (new_buffer size n ss).segments i)
  unfolding new_buffer
  new_buffer-Place i = rw (at-append_blank ss (max_segments - n) i) (Laid-Place size lo ss hi i l)
