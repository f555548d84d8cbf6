-- ===== src/BiBuffer/Lifetime.antt =====
-- How many messages a buffer of src/bi_buffer.c takes from its initialisation on: its space is never used again.
use universal_multi_segmente.Prelude.{
  ℕ, ◌+◌, ◌*◌, ◌≤◌, ◌<◌, ◌≡◌, refl, ap, ◌∙◌, inl, inr, Option, none, some, List, [], ◌∷◌, arith,
  ltb, ltb→lt, ltb→ge, Bool-cases, Option-cases,
}
use universal_multi_segmente.Capsule.{capsule_size}
use universal_multi_segmente.BiBuffer.{BiBuffer, claim, read, release}
use universal_multi_segmente.BiBuffer.Invariant.{IsValid, release-IsValid, read-some}
use universal_multi_segmente.BiBuffer.Effects.{write_index-release, capacity-release}
use universal_multi_segmente.BiBuffer.Protocol.{
  offer, claim-fits, claim-full, offer-full, offer-Offered,
}

pub data Use : Type 0 where
  produce consume : Use

-- Read and, if there is a message, release it, as a consumer does.
pub drain : BiBuffer → BiBuffer
drain b = elim (read b) [ none ↦ b | some _ ↦ release b ]

pub perform : BiBuffer → Use → BiBuffer
unfolding drain
perform b produce = offer b
perform b consume = drain b

taken : Option ℕ → ℕ
taken none = 0
taken (some _) = 1

-- 1 if the use is an offer that the buffer takes.
pub takes : BiBuffer → Use → ℕ
unfolding taken
takes b produce = taken (claim b capsule_size).0
takes b consume = 0

pub perform_all : BiBuffer → List Use → BiBuffer
perform_all b [] = b
perform_all b (u ∷ us) = perform_all (perform b u) us

pub accepted : BiBuffer → List Use → ℕ
accepted b [] = 0
accepted b (u ∷ us) = takes b u + accepted (perform b u) us

record Performed (b : BiBuffer) (n : ℕ) (c : BiBuffer) : Type 0 where
  valid : IsValid c
  grown : c.write_index ≡ b.write_index + capsule_size * n
  capacity_same : c.capacity ≡ b.capacity

takes-full :
    {b : BiBuffer} → IsValid b → b.capacity < b.write_index + capsule_size → takes b produce ≡ 0
unfolding takes
takes-full v h = ap (λ p. taken p.0) (claim-full capsule_size v h (omega arith))

takes-fits :
    {b : BiBuffer} → IsValid b → b.write_index + capsule_size ≤ b.capacity → takes b produce ≡ 1
unfolding takes
takes-fits v h = ap (λ p. taken p.0) (claim-fits capsule_size v h)

produce-Performed : {b : BiBuffer} → IsValid b → Performed b (takes b produce) (offer b)
produce-Performed {b} v = elim (Bool-cases (ltb b.capacity (b.write_index + capsule_size))) [
  | inl full ↦
      let h = ltb→lt _ _ full in
      rw (offer-full v h)
        (record { valid = v; grown = omega (arith, takes-full v h); capacity_same = refl })
  | inr fits ↦
      let h = ltb→ge _ _ fits in
      let o = offer-Offered v h in
      record {
        valid = o.valid;
        grown = omega (arith, o.write_next, takes-fits v h);
        capacity_same = o.capacity_same;
      }
]

drain-Performed : {b : BiBuffer} → IsValid b → Performed b 0 (drain b)
unfolding drain
drain-Performed {b} v = elim (Option-cases (read b)) [
  | inl e ↦ rw (e, drain) (record { valid = v; grown = omega arith; capacity_same = refl })
  | inr ((o, n), e) ↦
      rw (e, drain)
        (record {
          valid = release-IsValid v (read-some b e).2;
          grown = omega (arith, write_index-release b);
          capacity_same = capacity-release b;
        })
]

perform-Performed : {b : BiBuffer} (u : Use) → IsValid b → Performed b (takes b u) (perform b u)
unfolding perform takes
perform-Performed produce v = produce-Performed v
perform-Performed consume v = drain-Performed v

perform_all-Performed :
    (b : BiBuffer) (us : List Use) → IsValid b → Performed b (accepted b us) (perform_all b us)
unfolding perform_all accepted
perform_all-Performed b [] v = record { valid = v; grown = omega arith; capacity_same = refl }
perform_all-Performed b (u ∷ us) v =
    let p = perform-Performed u v in
    let q = perform_all-Performed (perform b u) us p.valid in
    record {
      valid = q.valid;
      grown = omega (arith, p.grown, q.grown);
      capacity_same = q.capacity_same ∙ p.capacity_same;
    }

-- Whatever order producers and consumers come in, each message that a valid buffer accepts moves the
-- write index on by its size, so that all the messages accepted, read or not, have to fit in what
-- lies behind the write index at the start.
pub lifetime :
    {b : BiBuffer} (us : List Use)
    → IsValid b
    → IsValid (perform_all b us)
      × ((perform_all b us).write_index ≡ b.write_index + capsule_size * accepted b us)
      × (b.write_index + capsule_size * accepted b us ≤ b.capacity)
lifetime {b} us v =
    let p = perform_all-Performed b us v in
    (p.valid, p.grown, omega (arith, p.grown, p.capacity_same, p.valid.written))
