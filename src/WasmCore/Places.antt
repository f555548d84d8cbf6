-- ===== src/WasmCore/Places.antt =====
-- What a write of src/umsbb_wasm_core.c leaves alone: the places of the segments and every byte
-- outside one of them.
use universal_multi_segmente.Prelude.{
  ℕ, ◌+◌, ◌≤◌, ◌<◌, ◌≡◌, refl, sym, ◌∙◌, subst, inl, inr, List, arith, leb→le, length, set,
  get_or-set_self, get_or-set_ne, length-set,
}
use universal_multi_segmente.WasmCore.{header_size, Segment, Buffer}
use universal_multi_segmente.WasmCore.Buffers.{empty_segment}
use universal_multi_segmente.WasmCore.Writing.{reset_segment, extended, append, write_buffer}
use universal_multi_segmente.WasmCore.Checksums.{IsMessage}
use universal_multi_segmente.WasmCore.Stored.{SameOutside}
use universal_multi_segmente.WasmCore.Layout.{Messages, at, by_index, Holds, IsBuffer}
use universal_multi_segmente.WasmCore.Pushing.{
  next_index, narrow, Space, here, next, emptied, find_space-Space, next_index_bound,
}

abbrev pub SamePlace : Segment → Segment → Type 0
SamePlace s t = (t.base ≡ s.base) × (t.capacity ≡ s.capacity)

abbrev pub SamePlaces : List Segment → List Segment → Type 0
SamePlaces ss ss' = (i : ℕ) → SamePlace (at ss i) (at ss' i)

pub set-SamePlaces :
    (ss : List Segment) (i : ℕ) (s : Segment)
    → i < length ss
    → SamePlace (at ss i) s
    → SamePlaces ss (set ss i s)
set-SamePlaces ss i s h p j =
    by_index (λ j. SamePlace (at ss j) (at (set ss i s) j)) i j
      (subst (SamePlace (at ss i)) (sym (get_or-set_self ss i s empty_segment h)) p)
      (λ n.
        subst (SamePlace (at ss j)) (sym (get_or-set_ne ss i j s empty_segment (λ e. n (sym e))))
          (refl, refl))

SamePlaces-trans :
    (ss ss' ss'' : List Segment) → SamePlaces ss ss' → SamePlaces ss' ss'' → SamePlaces ss ss''
SamePlaces-trans ss ss' ss'' p q i = ((q i).0 ∙ (p i).0, (q i).1 ∙ (p i).1)

-- Only bytes of the segment `i` changed.
pub record IsTouched (ss : List Segment) (d : ℕ → ℕ) (ss' : List Segment) (d' : ℕ → ℕ)
    : Type 0 where
  pub index : ℕ
  pub outside : SameOutside d d' (at ss index).base ((at ss index).base + (at ss index).capacity)
  pub places : SamePlaces ss ss'

SamePlaces-IsTouched :
    (ss ss' : List Segment) (d d' : ℕ → ℕ) (ss'' : List Segment)
    → SamePlaces ss ss'
    → IsTouched ss' d ss'' d'
    → IsTouched ss d ss'' d'
SamePlaces-IsTouched ss ss' d d' ss'' p t =
    let (base, capacity) = p t.index in
    record {
      index = t.index;
      outside = λ o c. t.outside o (elim c [
        | inl h ↦ inl (omega (arith, base))
        | inr h ↦ inr (omega (arith, base, capacity))
      ]);
      places = SamePlaces-trans ss ss' ss'' p t.places;
    }

append-IsTouched :
    (b : Buffer) (d : ℕ → ℕ) (time : ℕ) (m : List ℕ)
    → b.current_write_segment < length b.segments
    → let s = at b.segments b.current_write_segment in
      s.write_pos + header_size + length m ≤ s.capacity
      → let (b', d') = append b d time m in IsTouched b.segments d b'.segments d'
unfolding append
append-IsTouched b d time m h fits =
    let i = b.current_write_segment in
    let s = at b.segments i in
    record {
      index = i;
      outside = narrow d time m s fits;
      places = set-SamePlaces b.segments i (extended s (header_size + length m)) h (refl, refl);
    }

module _ (b : Buffer) (d : ℕ → ℕ) (m : List ℕ) (qs : ℕ → Messages) (h : Holds b.segments d qs)
    (w : IsBuffer b) (v : IsMessage m) where
  Space-IsTouched :
      {b' : Buffer} (time : ℕ)
      → Space b m b'
      → header_size + length m ≤ (at b.segments (next_index b)).capacity
      → let (b'', d') = append b' d time m in IsTouched b.segments d b''.segments d'
  Space-IsTouched time (here e) fits =
      append-IsTouched b d time m (omega (arith, w.writes, w.present)) (leb→le _ _ e)
  Space-IsTouched time (next e f) fits =
      append-IsTouched (record b { current_write_segment = next_index b }) d time m
        (next_index_bound b d m qs h w v) (leb→le _ _ f)
  Space-IsTouched time (emptied e f) fits =
      let j = next_index b in
      let s = at b.segments j in
      let bound = next_index_bound b d m qs h w v in
      let ss = set b.segments j (reset_segment s) in
      let own = get_or-set_self b.segments j (reset_segment s) empty_segment bound in
      let t =
        append-IsTouched (record b { segments = ss; current_write_segment = j }) d time m
          (omega (arith, length-set b.segments j (reset_segment s), bound))
          (subst (λ x. x.write_pos + header_size + length m ≤ x.capacity) (sym own)
            (omega (arith, fits))) in
      SamePlaces-IsTouched b.segments ss d _ _
        (set-SamePlaces b.segments j (reset_segment s) bound (refl, refl)) t

  Space-ready : {b' : Buffer} → Space b m b' → b'.is_initialized ≡ b.is_initialized
  Space-ready (here e) = refl
  Space-ready (next e f) = refl
  Space-ready (emptied e f) = refl

  pub write_buffer-ready :
      (time : ℕ) → (write_buffer b d time m).0.is_initialized ≡ b.is_initialized
  unfolding write_buffer append
  write_buffer-ready time = Space-ready (find_space-Space b d m qs h w v)

  Space-num_segments : {b' : Buffer} → Space b m b' → b'.num_segments ≡ b.num_segments
  Space-num_segments (here e) = refl
  Space-num_segments (next e f) = refl
  Space-num_segments (emptied e f) = refl

  pub write_buffer-num_segments :
      (time : ℕ) → (write_buffer b d time m).0.num_segments ≡ b.num_segments
  unfolding write_buffer append
  write_buffer-num_segments time = Space-num_segments (find_space-Space b d m qs h w v)

  pub write_buffer-IsTouched :
      (time : ℕ)
      → header_size + length m ≤ (at b.segments (next_index b)).capacity
      → let (b', d') = write_buffer b d time m in IsTouched b.segments d b'.segments d'
  unfolding write_buffer
  write_buffer-IsTouched time fits = Space-IsTouched time (find_space-Space b d m qs h w v) fits
