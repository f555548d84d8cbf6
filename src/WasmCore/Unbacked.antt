-- ===== src/WasmCore/Unbacked.antt =====
-- Segments of src/umsbb_wasm_core.c that have no bytes.
use universal_multi_segmente.Prelude.{
  ℕ, zero, suc, ◌+◌, ◌^◌, ◌≤◌, ◌<◌, ◌≡◌, refl, ap, ◌∙◌, ◌||◌, not, true, false, some, List, ◌∷◌,
  subst, Option, none, Bool, get_or-set_self, arith, ltb, ◌==◌, if◌then◌else◌, ge→ltb, add32,
  length, set, replicate,
}
use mathlib.Core.Option.{some-injective}
use universal_multi_segmente.WasmCore.{max_segments, Answer, number, Segment, Heap, System}
use universal_multi_segmente.WasmCore.Memory.{heap_size, align_size, clear, wasm_malloc}
use universal_multi_segmente.WasmCore.Buffers.{
  empty_segment, buffer_struct_size, first_free, add_segment, allocate_segments, new_buffer,
  create_filled, create_allocated, create_at, create_buffer,
}
use universal_multi_segmente.WasmCore.Invariant.{slot}

abbrev pub unbacked : ℕ → ℕ → Segment
unbacked base size = record empty_segment { base = base; capacity = size }

add_segment-some :
    (size p : ℕ) (m : Heap) (r : Option (List Segment) × Heap) (ss : List Segment)
    → r.0 ≡ some ss
    → (add_segment size (some p) m r).0 ≡ some (unbacked p size ∷ ss)
unfolding add_segment
add_segment-some size p m (none, m') ss e = cc
add_segment-some size p m (some ts, m') ss e =
    ap (λ x. some (unbacked p size ∷ x)) (some-injective ts ss e)

module _ (size : ℕ) (h : 2 ^ 32 ≤ size + 7) (k : size < 2 ^ 32) where
  align_size-zero : align_size size ≡ 0
  unfolding align_size
  align_size-zero = omega arith

  wasm_malloc-zero :
      (m : Heap)
      → m.heap_pos ≤ heap_size
      → wasm_malloc m size ≡ (
        some m.heap_pos,
        record { bytes = clear m.bytes m.heap_pos 0; heap_pos = add32 m.heap_pos 0 },
      )
  unfolding wasm_malloc
  wasm_malloc-zero m v =
      rw align_size-zero (rw (ge→ltb heap_size (add32 m.heap_pos 0) (omega arith)) refl)

  allocate_segments-unbacked :
      (n : ℕ) (m : Heap)
      → m.heap_pos ≤ heap_size
      → (allocate_segments n m size).0 ≡ some (replicate n (unbacked m.heap_pos size))
  unfolding allocate_segments
  allocate_segments-unbacked zero m v = refl
  allocate_segments-unbacked (suc n) m v =
      let m' : Heap = record {
        bytes = clear m.bytes m.heap_pos 0;
        heap_pos = add32 m.heap_pos 0;
      } in
      let same : m'.heap_pos ≡ m.heap_pos = omega arith in
      rw (wasm_malloc-zero m v) (
        add_segment-some size m.heap_pos m' (allocate_segments n m' size)
          (replicate n (unbacked m.heap_pos size))
          (subst (λ p. (allocate_segments n m' size).0 ≡ some (replicate n (unbacked p size))) same
            (allocate_segments-unbacked n m' (omega arith))))

create_filled-some :
    (y : System) (id size n : ℕ) (r : Option (List Segment) × Heap) (ss : List Segment)
    → r.0 ≡ some ss
    → (create_filled y id size n r).0 ≡ number id
      × (slot (create_filled y id size n r).1.buffers id
          ≡ slot (set y.buffers id (some (new_buffer size n ss))) id)
unfolding create_filled
create_filled-some y id size n (none, m) ss e = cc
create_filled-some y id size n (some ts, m) ss e = (
  refl,
  ap (λ x. slot (set y.buffers id (some (new_buffer size n x))) id) (some-injective ts ss e),
)

wasm_malloc-struct :
    (m : Heap)
    → m.heap_pos + buffer_struct_size ≤ heap_size
    → (m' : Heap) × (wasm_malloc m buffer_struct_size ≡ (some m.heap_pos, m'))
      × (m'.heap_pos ≤ heap_size)
unfolding wasm_malloc align_size
wasm_malloc-struct m h = (
  record { bytes = clear m.bytes m.heap_pos 240; heap_pos = add32 m.heap_pos 240 },
  rw (ge→ltb heap_size (add32 m.heap_pos 240) (omega arith)) refl,
  omega arith,
)

guarded :
    (t u : Bool) (a b c : Answer × System)
    → t ≡ true
    → u ≡ false
    → (if not t then a else if u then b else c) ≡ c
guarded t u a b c e f = rw (e, f) refl

create_buffer-allocated :
    (y : System) (size n id : ℕ)
    → y.initialized ≡ true
    → 0 < size
    → 0 < n
    → n ≤ max_segments
    → first_free y.buffers 0 ≡ some id
    → create_buffer y size n ≡ create_allocated y id size n (wasm_malloc y.heap buffer_struct_size)
unfolding create_buffer create_at
create_buffer-allocated y size n id e h p q f =
    guarded y.initialized (size == 0 || n == 0 || ltb max_segments n) _ _ _ e (ground arith)
    ∙ ap (create_at y size n) f

-- A segment size within 7 of 2 ^ 32 is rounded to 0 bytes: the creation of a buffer of up to eight
-- segments of such a size, with a free slot and room for its structure, succeeds, and all its
-- segments start at one and the same byte, with a capacity of nearly 2 ^ 32 bytes that they do not have.
pub create_buffer-unbacked :
    (y : System) (size n id : ℕ)
    → y.initialized ≡ true
    → 2 ^ 32 ≤ size + 7
    → size < 2 ^ 32
    → 0 < n
    → n ≤ max_segments
    → first_free y.buffers 0 ≡ some id
    → id < length y.buffers
    → y.heap.heap_pos + buffer_struct_size ≤ heap_size
    → let (answer, y') = create_buffer y size n in
      (answer ≡ number id)
      × ((base : ℕ) × (slot y'.buffers id
            ≡ some (new_buffer size n (replicate n (unbacked base size)))))
create_buffer-unbacked y size n id e h k p q f l r =
    let (m, made, within) = wasm_malloc-struct y.heap r in
    let (answered, placed) =
      create_filled-some y id size n (allocate_segments n m size)
        (replicate n (unbacked m.heap_pos size)) (allocate_segments-unbacked size h k n m within) in
    rw (create_buffer-allocated y size n id e (omega arith) p q f) (
      rw made (
        unfold create_allocated in
        (answered, (m.heap_pos, placed ∙ get_or-set_self y.buffers id _ none l))))
