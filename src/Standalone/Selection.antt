-- ===== src/Standalone/Selection.antt =====
-- Which segment src/umsbb_complete_core.c selects for a write.
use universal_multi_segmente.Prelude.{
  ℕ, suc, ◌+◌, ◌-◌, ◌^◌, ◌≤◌, ◌<◌, ◌≡◌, refl, Bool, true, false, ◌&&◌, ◌⊎◌, inl, inr, some, List,
  [], ◌∷◌, arith, ltb, ltb→lt, lt→ltb, ltb→ge, get_elem?, sub_size, Bool-cases, All, All-get,
}
use universal_multi_segmente.Standalone.{Segment}
use universal_multi_segmente.Standalone.Messages.{least_pending, select_write_segment}

-- The bytes that wait in a segment, as a 64-bit number.
abbrev pub pending : Segment → ℕ
pending s = sub_size s.write_pos s.read_pos

-- An active segment has at least `l` bytes waiting.
abbrev pub AtLeast : ℕ → Segment → Type 0
AtLeast l s = s.active ≡ true → l ≤ pending s

-- `r` is the index of an active segment with fewer than `lowest` bytes waiting, and none that is
-- active has fewer.
pub record IsLeast (ss : List Segment) (i lowest r : ℕ) : Type 0 where
  pub place : ℕ
  pub segment : Segment
  pub found : r ≡ i + place
  pub present : get_elem? ss place ≡ some segment
  pub active : segment.active ≡ true
  pub lower : pending segment < lowest
  pub least : All (AtLeast (pending segment)) ss

abbrev Selected : List Segment → ℕ → ℕ → ℕ → ℕ → Type 0
Selected ss i best lowest r = ((r ≡ best) × All (AtLeast lowest) ss) ⊎ IsLeast ss i lowest r

least_pending-lower :
    (s : Segment) (ss : List Segment) (i best lowest : ℕ)
    → s.active ≡ true
    → pending s < lowest
    → least_pending (s ∷ ss) i best lowest ≡ least_pending ss (i + 1) i (pending s)
unfolding least_pending
least_pending-lower s ss i best lowest a h = rw (a, lt→ltb (pending s) lowest h)

least_pending-higher :
    (s : Segment) (ss : List Segment) (i best lowest : ℕ)
    → (s.active && ltb (pending s) lowest) ≡ false
    → least_pending (s ∷ ss) i best lowest ≡ least_pending ss (i + 1) best lowest
unfolding least_pending
least_pending-higher s ss i best lowest e = rw e

and_split : (a b : Bool) → (a && b) ≡ true → (a ≡ true) × (b ≡ true)
and_split true true e = (refl, refl)
and_split true false e = cc
and_split false b e = cc

and_refuse : (a b : Bool) → (a && b) ≡ false → a ≡ true → b ≡ false
and_refuse true b e h = e
and_refuse false b e h = cc

later :
    {s : Segment} {ss : List Segment} {i lowest low r : ℕ}
    → low ≤ lowest
    → AtLeast low s
    → IsLeast ss (i + 1) low r
    → IsLeast (s ∷ ss) i lowest r
later h a l = record {
  place = suc l.place;
  segment = l.segment;
  found = omega (arith, l.found);
  present = l.present;
  active = l.active;
  lower = omega (arith, l.lower);
  least = (λ on. omega (arith, a on, l.lower), l.least);
}

Selected-lower :
    (s : Segment) (ss : List Segment) (i best lowest r : ℕ)
    → s.active ≡ true
    → pending s < lowest
    → Selected ss (i + 1) i (pending s) r
    → Selected (s ∷ ss) i best lowest r
Selected-lower s ss i best lowest r a h (inl (e, l)) = inr (record {
  place = 0;
  segment = s;
  found = omega (arith, e);
  present = refl;
  active = a;
  lower = h;
  least = (λ on. omega arith, l);
})
Selected-lower s ss i best lowest r a h (inr l) = inr (later (omega arith) (λ on. omega arith) l)

Selected-higher :
    (s : Segment) (ss : List Segment) (i best lowest r : ℕ)
    → AtLeast lowest s
    → Selected ss (i + 1) best lowest r
    → Selected (s ∷ ss) i best lowest r
Selected-higher s ss i best lowest r a (inl (e, l)) = inl (e, (a, l))
Selected-higher s ss i best lowest r a (inr l) = inr (later (omega arith) a l)

least_pending-Selected :
    (ss : List Segment) (i best lowest : ℕ)
    → Selected ss i best lowest (least_pending ss i best lowest)
least_pending-Selected [] i best lowest = inl (unfold least_pending in refl, tt)
least_pending-Selected (s ∷ ss) i best lowest =
    elim (Bool-cases (s.active && ltb (pending s) lowest)) [
      | inl e ↦
          let (a, l) = and_split s.active (ltb (pending s) lowest) e in
          let h = ltb→lt (pending s) lowest l in
          rw (least_pending-lower s ss i best lowest a h) (
            Selected-lower s ss i best lowest (least_pending ss (i + 1) i (pending s)) a h
              (least_pending-Selected ss (i + 1) i (pending s)))
      | inr e ↦ rw (least_pending-higher s ss i best lowest e) (
          Selected-higher s ss i best lowest (least_pending ss (i + 1) best lowest)
            (λ on. ltb→ge (pending s) lowest (and_refuse s.active (ltb (pending s) lowest) e on))
            (least_pending-Selected ss (i + 1) best lowest))
    ]

-- If some active segment has fewer than 2 ^ 64 - 1 bytes waiting, a write selects an active segment
-- with the fewest.
pub select_write_segment-IsLeast :
    (ss : List Segment) (j : ℕ) (s : Segment)
    → get_elem? ss j ≡ some s
    → s.active ≡ true
    → pending s < 2 ^ 64 - 1
    → IsLeast ss 0 (2 ^ 64 - 1) (select_write_segment ss)
unfolding select_write_segment
select_write_segment-IsLeast ss j s e a h = elim (least_pending-Selected ss 0 0 (2 ^ 64 - 1)) [
  | inl l ↦ absurd (omega (arith, All-get (AtLeast (2 ^ 64 - 1)) ss j s l.1 e a))
  | inr l ↦ l
]
