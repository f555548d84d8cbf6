-- ===== src/WasmCore/Invariant.antt =====
-- The whole state of src/umsbb_wasm_core.c as queues of messages, for each buffer and each of its
-- segments: what any change of one slot keeps.
use universal_multi_segmente.Prelude.{
  ℕ, zero, suc, ◌+◌, ◌≤◌, ◌<◌, ◌≡◌, sym, ◌∙◌, ap, ◌≢◌, inl, inr, true, Option, none, some, List, [],
  ◌∷◌, arith, length, get_or, set, get_or-set_self, get_or-set_ne, length-set, update,
}
use universal_multi_segmente.WasmCore.{max_buffers, Segment, Buffer, Heap, System}
use universal_multi_segmente.WasmCore.Blocks.{IsHeap}
use universal_multi_segmente.WasmCore.Stored.{SameOutside, Clear, IsQueue-SameOutside}
use universal_multi_segmente.WasmCore.Layout.{
  Messages, at, ClearOf, Holds, IsBuffer, by_index, update_self, update-ne,
}

abbrev pub slot : List (Option Buffer) → ℕ → Option Buffer
slot bs id = get_or bs id none

-- A buffer in use: its segments are queues, and lie in what was allocated.
pub record IsLive (m : Heap) (qs : ℕ → Messages) (b : Buffer) : Type 0 where
  pub holds : Holds b.segments m.bytes qs
  pub buffer : IsBuffer b
  pub ready : b.is_initialized ≡ true
  pub below : (i : ℕ) → (at b.segments i).base + (at b.segments i).capacity ≤ m.heap_pos

-- No segment of one buffer shares a byte with one of the other.
abbrev pub Disjoint : Buffer → Buffer → Type 0
Disjoint b c = (i j : ℕ) → ClearOf (at b.segments i) (at c.segments j)

-- The queues of all the buffers, by id and index.
pub record IsSystem (y : System) (qs : ℕ → ℕ → Messages) : Type 0 where
  pub heap : IsHeap y.heap
  pub slots : length y.buffers ≡ max_buffers
  pub live : (id : ℕ) (b : Buffer) → slot y.buffers id ≡ some b → IsLive y.heap (qs id) b
  pub disjoint :
      (id id' : ℕ) (b c : Buffer)
      → id ≢ id'
      → slot y.buffers id ≡ some b
      → slot y.buffers id' ≡ some c
      → Disjoint b c

pub ClearOf-sym : (s t : Segment) → ClearOf s t → ClearOf t s
ClearOf-sym s t (inl h) = inr h
ClearOf-sym s t (inr h) = inl h

pub slot-lt :
    (bs : List (Option Buffer)) (id : ℕ) (b : Buffer) → slot bs id ≡ some b → id < length bs
slot-lt [] id b e = cc
slot-lt (o ∷ bs) zero b e = omega arith
slot-lt (o ∷ bs) (suc id) b e = omega (arith, slot-lt bs id b e)

-- A slot is set to `o` and the heap becomes `m`. What is asked for the other buffers is that they
-- stay in use, and that the new one keeps clear of them.
pub set-IsSystem :
    (y y' : System) (qs : ℕ → ℕ → Messages) (id : ℕ) (o : Option Buffer) (q : ℕ → Messages)
    → IsSystem y qs
    → id < max_buffers
    → y'.buffers ≡ set y.buffers id o
    → IsHeap y'.heap
    → ((b : Buffer) → o ≡ some b → IsLive y'.heap q b)
    → ((j : ℕ) (c : Buffer) → j ≢ id → slot y.buffers j ≡ some c → IsLive y'.heap (qs j) c)
    → ((b : Buffer)
        → o ≡ some b
        → (j : ℕ) (c : Buffer) → j ≢ id
        → slot y.buffers j ≡ some c
        → Disjoint b c)
    → IsSystem y' (update qs id q)
set-IsSystem y y' qs id o q v h shape heap new kept apart = record {
  heap = heap;
  slots = ap length shape ∙ length-set y.buffers id o ∙ v.slots;
  live = λ j.
      by_index
        (λ j. (b : Buffer) → slot y'.buffers j ≡ some b → IsLive y'.heap (update qs id q j) b) id j
        (λ b e. rw (update_self qs id q) (new b (sym own ∙ e)))
        (λ n b e. rw (update-ne qs id j q n) (kept j b n (sym (others j n) ∙ e)));
  disjoint = λ j l b c n e f.
      by_index (λ j. (b : Buffer) → j ≢ l → slot y'.buffers j ≡ some b → Disjoint b c) id j
        (λ b m e. apart b (sym own ∙ e) l c (λ k. m (sym k)) (sym (others l (λ k. m (sym k))) ∙ f))
        (λ m b k e.
          by_index (λ l. (c : Buffer) → j ≢ l → slot y'.buffers l ≡ some c → Disjoint b c) id l
            (λ c r f i i'.
              ClearOf-sym (at c.segments i') (at b.segments i)
                (apart c (sym own ∙ f) j b m (sym (others j m) ∙ e) i' i))
            (λ w c r f. v.disjoint j l b c r (sym (others j m) ∙ e) (sym (others l w) ∙ f)) c k f)
        b n e;
}
  where
    own : slot y'.buffers id ≡ o
    own = rw shape (get_or-set_self y.buffers id o none (omega (arith, v.slots)))

    others : (j : ℕ) → j ≢ id → slot y'.buffers j ≡ slot y.buffers j
    others j n = rw shape (get_or-set_ne y.buffers id j o none (λ e. n (sym e)))

-- Bytes that change where a buffer has none do not matter to it, nor does a heap that grows.
pub IsLive-SameOutside :
    (m m' : Heap) (qs : ℕ → Messages) (b : Buffer) (lo hi : ℕ)
    → IsLive m qs b
    → m.heap_pos ≤ m'.heap_pos
    → SameOutside m.bytes m'.bytes lo hi
    → ((i : ℕ) → let s = at b.segments i in Clear s.base (s.base + s.capacity) lo hi)
    → IsLive m' qs b
IsLive-SameOutside m m' qs b lo hi v g f c = record {
  holds = record {
    queues = λ i. IsQueue-SameOutside (v.holds.queues i) m'.bytes lo hi f (c i);
    apart = v.holds.apart;
  };
  buffer = v.buffer;
  ready = v.ready;
  below = λ i. omega (arith, v.below i);
}
