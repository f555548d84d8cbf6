-- ===== src/Segments/Arena.antt =====
-- What src/arena_allocator.c hands out.
use universal_multi_segmente.Prelude.{
  ℕ, ◌+◌, ◌^◌, ◌≤◌, ◌<◌, ◌≡◌, subst, inl, inr, Option, none, some, List, [], ◌∷◌, arith, ltb,
  if◌then◌else◌, ltb→ge, Bool-cases, add_size,
}

-- `memory` is the address of the block, of `capacity` bytes.
pub record ArenaAllocator : Type 0 where
  pub memory : ℕ
  pub capacity : ℕ
  pub offset : ℕ

-- The address that `malloc` gives is an argument.
unfoldable pub arena_init : ℕ → ℕ → ArenaAllocator
arena_init address cap = record { memory = address; capacity = cap; offset = 0 }

unfoldable pub arena_alloc : ArenaAllocator → ℕ → Option ℕ × ArenaAllocator
arena_alloc a size =
    if ltb a.capacity (add_size a.offset size)
    then (none, a)
    else (some (a.memory + a.offset), record a { offset = add_size a.offset size })

unfoldable pub arena_reset : ArenaAllocator → ArenaAllocator
arena_reset a = record a { offset = 0 }

pub record IsArena (a : ArenaAllocator) : Type 0 where
  pub small : a.capacity < 2 ^ 63
  pub within : a.offset ≤ a.capacity

module _ {a : ArenaAllocator} (size : ℕ) (v : IsArena a) where
  pub arena_alloc-room :
      a.offset + size ≤ a.capacity
      → arena_alloc a size ≡ (some (a.memory + a.offset), record a { offset = a.offset + size })
  unfolding arena_alloc
  arena_alloc-room h = ground arith

  pub arena_alloc-exhausted :
      a.capacity < a.offset + size → a.offset + size < 2 ^ 64 → arena_alloc a size ≡ (none, a)
  unfolding arena_alloc
  arena_alloc-exhausted h k = ground arith

-- The blocks granted so far, with the answer to a request in front.
abbrev pub granted : ℕ → Option ℕ → List (ℕ × ℕ) → List (ℕ × ℕ)
granted size none rest = rest
granted size (some q) rest = (q, size) ∷ rest

-- What a sequence of requests gets: the blocks granted, as address and size.
pub alloc_all : ArenaAllocator → List ℕ → List (ℕ × ℕ) × ArenaAllocator
alloc_all a [] = ([], a)
alloc_all a (size ∷ sizes) =
    let (p, a') = arena_alloc a size in
    let (rest, a'') = alloc_all a' sizes in (granted size p rest, a'')

-- The blocks lie between two addresses in their order, and none overlaps another.
abbrev pub Packed : ℕ → List (ℕ × ℕ) → ℕ → Type 0
Packed lo [] hi = lo ≤ hi
Packed lo ((p, size) ∷ rest) hi = (lo ≤ p) × Packed (p + size) rest hi

abbrev pub Sizes : List ℕ → Type 0
Sizes [] = Unit {0}
Sizes (s ∷ ss) = (s < 2 ^ 63) × Sizes ss

pub arena_alloc-IsArena :
    {a : ArenaAllocator} (size : ℕ) → size < 2 ^ 63 → IsArena a → IsArena (arena_alloc a size).1
unfolding arena_alloc
arena_alloc-IsArena size h v = ground arith

Packed-cons :
    (a : ArenaAllocator) (size : ℕ) (rest : List (ℕ × ℕ))
    → IsArena a
    → size < 2 ^ 63
    → Packed
        ((arena_alloc a size).1.memory + (arena_alloc a size).1.offset)
        rest
        ((arena_alloc a size).1.memory + (arena_alloc a size).1.capacity)
    → Packed
        (a.memory + a.offset)
        (granted size (arena_alloc a size).0 rest)
        (a.memory + a.capacity)
unfolding arena_alloc
Packed-cons a size rest v h p = elim (Bool-cases (ltb a.capacity (add_size a.offset size))) [
  | inl full ↦ rw full (rw full at p)
  | inr fits ↦ rw fits (
    omega arith,
    subst (λ lo. Packed lo rest (a.memory + a.capacity))
        (omega (arith, v.within, v.small, ltb→ge _ _ fits)) (rw fits at p),
  )
]

-- Every block of a sequence of requests below 2 ^ 63 bytes lies in what the arena had left, and no
-- two of them overlap.
pub alloc_all-Packed :
    (a : ArenaAllocator) (sizes : List ℕ)
    → IsArena a
    → Sizes sizes
    → Packed (a.memory + a.offset) (alloc_all a sizes).0 (a.memory + a.capacity)
unfolding alloc_all
alloc_all-Packed a [] v h = omega (arith, v.within)
alloc_all-Packed a (size ∷ sizes) v h =
    Packed-cons a size (alloc_all (arena_alloc a size).1 sizes).0 v h.0
      (alloc_all-Packed (arena_alloc a size).1 sizes (arena_alloc-IsArena size h.0 v) h.1)
