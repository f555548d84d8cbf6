-- ===== src/WasmCore/Slots.antt =====
-- Creating and destroying buffers of src/umsbb_wasm_core.c keeps the queues of the others.
use universal_multi_segmente.Prelude.{
  ℕ, suc, ◌+◌, ◌-◌, ◌^◌, ◌≤◌, ◌<◌, ◌≡◌, refl, sym, ap, subst, inl, inr, Bool, true, false, not,
  ◌||◌, Option, none, some, List, [], ◌∷◌, arith, ltb, ◌==◌, Bool-cases, if◌then◌else◌, ==_iff,
  length, set, update,
}
use mathlib.Core.Option.{some-injective}
use mathlib.Core.Path.{fun_ext}
use universal_multi_segmente.WasmCore.{
  max_buffers, max_segments, Answer, number, code, Segment, Buffer, Heap, System,
}
use universal_multi_segmente.WasmCore.Memory.{heap_size, wasm_malloc}
use universal_multi_segmente.WasmCore.Buffers.{
  buffer_struct_size, is_rejected, destroy_found, destroy_buffer, first_free, allocate_segments,
  new_buffer, create_filled, create_allocated, create_at, create_buffer,
}
use universal_multi_segmente.WasmCore.Blocks.{IsAllocation, wasm_malloc-IsAllocation}
use universal_multi_segmente.WasmCore.Layout.{Messages, at, ClearOf}
use universal_multi_segmente.WasmCore.Creation.{
  IsGrown, IsGrown-trans, Laid, Place, Allocated, wasm_malloc-IsGrown, allocate_segments-Allocated,
  new_buffer-Holds, new_buffer-IsBuffer, new_buffer-Place,
}
use universal_multi_segmente.WasmCore.Invariant.{
  slot, IsLive, Disjoint, IsSystem, slot-lt, set-IsSystem, IsLive-SameOutside,
}

IsLive-IsGrown :
    (m m' : Heap) (qs : ℕ → Messages) (b : Buffer) → IsLive m qs b → IsGrown m m' → IsLive m' qs b
IsLive-IsGrown m m' qs b v g =
    IsLive-SameOutside m m' qs b m.heap_pos m'.heap_pos v g.grows g.kept (λ i. inl (v.below i))

IsGrown-IsSystem :
    (y : System) (m : Heap) (qs : ℕ → ℕ → Messages)
    → IsSystem y qs
    → IsGrown y.heap m
    → IsSystem (record y { heap = m }) qs
IsGrown-IsSystem y m qs v g = record {
  heap = g.heap;
  slots = v.slots;
  live = λ id b e. IsLive-IsGrown y.heap m (qs id) b (v.live id b e) g;
  disjoint = v.disjoint;
}

-- What the search for a free slot finds.
abbrev Free : List (Option Buffer) → ℕ → Option ℕ → Type 0
Free bs i none = Unit {0}
Free bs i (some id) = (k : ℕ) × (id ≡ i + k) × (k < length bs) × (slot bs k ≡ none)

first_free-Free : (bs : List (Option Buffer)) (i : ℕ) → Free bs i (first_free bs i)
unfolding first_free
first_free-Free [] i = tt
first_free-Free (none ∷ bs) i = (0, omega arith, omega arith, refl)
first_free-Free (some b ∷ bs) i = later (first_free bs (i + 1)) (first_free-Free bs (i + 1))
  where
    later : (o : Option ℕ) → Free bs (i + 1) o → Free (some b ∷ bs) i o
    later none f = tt
    later (some id) (k, e, l, n) = (suc k, omega arith, omega arith, n)

-- What a creation may come to: a new buffer with empty queues in a slot that was free, or an error
-- and no change but to the heap behind what was allocated.
abbrev pub IsCreated : System → (ℕ → ℕ → Messages) → Answer × System → Type 0
IsCreated y qs (number id, y') =
    (id < max_buffers) × (slot y.buffers id ≡ none) × IsSystem y' (update qs id (λ i. []))
IsCreated y qs (code e, y') = (y'.buffers ≡ y.buffers) × IsSystem y' qs

module _ (y : System) (qs : ℕ → ℕ → Messages) (v : IsSystem y qs) (size n : ℕ) (p : 0 < n)
    (q : n ≤ max_segments) where
  Place-below : (lo hi : ℕ) (s : Segment) → Place size lo hi s → s.base + s.capacity ≤ hi
  Place-below lo hi s (inl e) = rw e (omega arith)
  Place-below lo hi s (inr (e, h, k)) =
      let c : s.capacity ≡ size = ap (λ x. x.capacity) e in omega arith

  Place-ClearOf' :
      (lo hi : ℕ) (s t : Segment) → Place size lo hi s → t.base + t.capacity ≤ lo → ClearOf s t
  Place-ClearOf' lo hi s t (inl e) h = rw e (inl (omega arith))
  Place-ClearOf' lo hi s t (inr (e, k, l)) h = inr (omega arith)

  created-IsLive :
      (m m' : Heap) (ss : List Segment)
      → Laid size m.heap_pos ss m'.heap_pos
      → length ss ≡ n
      → m'.heap_pos ≤ heap_size
      → IsLive m' (λ i. []) (new_buffer size n ss)
  created-IsLive m m' ss l k h = record {
    holds = new_buffer-Holds size n m.heap_pos ss m'.heap_pos l h m'.bytes;
    buffer = new_buffer-IsBuffer size n m.heap_pos ss m'.heap_pos l h p q k;
    ready = (unfold new_buffer in refl);
    below = λ i.
        Place-below m.heap_pos m'.heap_pos _
          (new_buffer-Place size n m.heap_pos ss m'.heap_pos l h i);
  }

  created-Disjoint :
      (m m' : Heap) (ss : List Segment) {c : Buffer} {r : ℕ → Messages}
      → Laid size m.heap_pos ss m'.heap_pos
      → m'.heap_pos ≤ heap_size
      → IsLive y.heap r c
      → IsGrown y.heap m
      → Disjoint (new_buffer size n ss) c
  created-Disjoint m m' ss {c = c} l h w g i j =
      Place-ClearOf' m.heap_pos m'.heap_pos _ (at c.segments j)
        (new_buffer-Place size n m.heap_pos ss m'.heap_pos l h i)
        (omega (arith, w.below j, g.grows))

  create_filled-IsCreated :
      (id : ℕ) (m : Heap) (r : Option (List Segment) × Heap)
      → id < max_buffers
      → slot y.buffers id ≡ none
      → IsGrown y.heap m
      → Allocated n m size r
      → IsCreated y qs (create_filled y id size n r)
  unfolding create_filled
  create_filled-IsCreated id m (none, m') h e g a =
      (refl, IsGrown-IsSystem y m' qs v (IsGrown-trans g a))
  create_filled-IsCreated id m (some ss, m') h e g (g', l, k) =
      let whole = IsGrown-trans g g' in
      let b = new_buffer size n ss in
      (
        h,
        e,
        set-IsSystem y (record y { buffers = set y.buffers id (some b); heap = m' }) qs id (some b)
            (λ i. []) v h refl whole.heap
            (λ b' f.
              subst (IsLive m' (λ i. [])) (some-injective b b' f)
                (created-IsLive m m' ss l k (omega (arith, g'.heap.within))))
            (λ j c f k'. IsLive-IsGrown y.heap m' (qs j) c (v.live j c k') whole)
            (λ b' f j c k' f'.
              subst (λ x. Disjoint x c) (some-injective b b' f)
                (created-Disjoint m m' ss l (omega (arith, g'.heap.within)) (v.live j c f') g)),
      )

  create_allocated-IsCreated :
      (id : ℕ) (r : Option ℕ × Heap)
      → id < max_buffers
      → slot y.buffers id ≡ none
      → size < 2 ^ 32 - 2 ^ 24
      → IsAllocation y.heap buffer_struct_size r
      → IsCreated y qs (create_allocated y id size n r)
  unfolding create_allocated
  create_allocated-IsCreated id (none, m) h e k a = (refl, v)
  create_allocated-IsCreated id (some ptr, m) h e k a =
      create_filled-IsCreated id m (allocate_segments n m size) h e
        (wasm_malloc-IsGrown buffer_struct_size (some ptr) v.heap a)
        (allocate_segments-Allocated n m size a.3 k)

  create_at-IsCreated :
      (o : Option ℕ)
      → Free y.buffers 0 o
      → size < 2 ^ 32 - 2 ^ 24
      → IsCreated y qs (create_at y size n o)
  unfolding create_at
  create_at-IsCreated none f k = (refl, v)
  create_at-IsCreated (some id) (i, e, l, f) k =
      let same : i ≡ id = omega arith in
      create_allocated-IsCreated id (wasm_malloc y.heap buffer_struct_size) (omega (arith, v.slots))
        (subst (λ x. slot y.buffers x ≡ none) same f) k
        (wasm_malloc-IsAllocation y.heap buffer_struct_size v.heap (omega arith))

-- For a segment size that does not come near 2 ^ 32, a creation gives the id of a slot that was
-- free, with every queue of the new buffer empty and the queues of the others as they were; or it
-- gives an error, and no queue changes.
pub create_buffer-IsCreated :
    (y : System) (qs : ℕ → ℕ → Messages) (size n : ℕ)
    → IsSystem y qs
    → size < 2 ^ 32 - 2 ^ 24
    → IsCreated y qs (create_buffer y size n)
unfolding create_buffer
create_buffer-IsCreated y qs size n v k =
    either (not y.initialized) _ _ (refl, v)
      (elim (Bool-cases (size == 0 || n == 0 || ltb max_segments n)) [
        | inl f ↦ rw f (refl, v)
        | inr f ↦ rw f (
            create_at-IsCreated y qs v size n (ground arith) (ground arith) (first_free y.buffers 0)
              (first_free-Free y.buffers 0) k)
      ])
  where
    either :
        (t : Bool) (r r' : Answer × System)
        → IsCreated y qs r
        → IsCreated y qs r'
        → IsCreated y qs (if t then r else r')
    either true r r' p p' = p
    either false r r' p p' = p'

update-same {ℓ} : {A : Type ℓ} (f : ℕ → A) (i j : ℕ) → update f i (f i) j ≡ f j
update-same f i j = elim (Bool-cases (j == i)) [
  | inl e ↦ rw e (ap f (sym ((==_iff j i).0 e)))
  | inr e ↦ rw e refl
]

-- A destruction empties the slot and leaves the other buffers, or changes nothing.
pub destroy_buffer-IsSystem :
    (y : System) (qs : ℕ → ℕ → Messages) (id : ℕ)
    → IsSystem y qs
    → IsSystem (destroy_buffer y id).1 qs
unfolding destroy_buffer
destroy_buffer-IsSystem y qs id v = elim (Bool-cases (is_rejected y id)) [
  | inl e ↦ rw e v
  | inr e ↦ rw e (found (slot y.buffers id) refl)
]
  where
    found : (o : Option Buffer) → slot y.buffers id ≡ o → IsSystem (destroy_found y id o).1 qs
    found none e = unfold destroy_found in v
    found (some b) e =
        unfold destroy_found in
        subst (IsSystem _) (fun_ext (update-same qs id)) (
          set-IsSystem y (record y { buffers = set y.buffers id none }) qs id none (qs id) v
            (omega (arith, slot-lt y.buffers id b e, v.slots)) refl v.heap (λ c f. cc)
            (λ j c n f. v.live j c f) (λ c f. cc))
