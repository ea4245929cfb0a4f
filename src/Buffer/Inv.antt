-- ===== src/Buffer/Inv.antt =====
-- The representation invariant of a buffer, and its simple operations.
use erishttp.Common.{
  ℕ, ◌+◌, ◌-◌, ◌^◌, ◌≤◌, ◌<◌, ◌≡◌, ◌↔◌, refl, Option, none, some, List, [], arith, length,
  get_elem?, length-replicate, length-set, get_elem?-set_self,
}
use erishttp.Buffer.Block.{Grant, bytes_of}
use erishttp.Buffer.{Buffer, contents, empty, init, size, capacity, cleanup, put_nul}

-- The block has the length that `alloc` says, and leaves room for a terminator behind the data.
-- With nothing allocated there is no data.
pub record IsValid (b : Buffer) : Type 0 where
  pub sized : length (bytes_of b.block) ≡ b.alloc
  pub room : b.size ≤ b.alloc - 1
  pub small : b.alloc < 2 ^ 64

-- The byte behind the data is the terminator.
abbrev pub IsTerminated : Buffer → Type 0
IsTerminated b = get_elem? (bytes_of b.block) b.size ≡ some 0

pub length-put_nul :
    (p : Option (List ℕ)) (i : ℕ) → length (bytes_of (put_nul p i)) ≡ length (bytes_of p)
length-put_nul none i = refl
length-put_nul (some xs) i = length-set xs i 0

pub put_nul-IsTerminated :
    (p : Option (List ℕ)) (i : ℕ)
    → i < length (bytes_of p)
    → get_elem? (bytes_of (put_nul p i)) i ≡ some 0
put_nul-IsTerminated none i h = absurd (omega arith)
put_nul-IsTerminated (some xs) i h = get_elem?-set_self xs i 0 h

pub empty-IsValid : IsValid empty
empty-IsValid = omega arith

-- `eris_buffer_init` with any capacity below 2^64 leaves a valid buffer with no data, also where the
-- allocator refuses.
pub new-IsValid :
    (g : Grant) (cap : ℕ) → cap < 2 ^ 64 → IsValid (init g cap).1 × (contents (init g cap).1 ≡ [])
unfolding init
new-IsValid none cap h = ground arith
new-IsValid (some junk) cap h = ground (arith, length-replicate cap (let z : ℕ = 0 in z))

-- `eris_buffer_cleanup` of a valid buffer gives a valid buffer with no data and the same allocation.
pub cleanup-IsValid :
    {b : Buffer}
    → IsValid b
    → IsValid (cleanup b) × (contents (cleanup b) ≡ []) × ((cleanup b).alloc ≡ b.alloc)
unfolding cleanup
cleanup-IsValid {b} v = ground (arith, length-put_nul b.block 0)

-- In a valid buffer the capacity that is reported, with the data, never exceeds the allocation, and
-- it is 0 exactly when at most one byte is free.
pub capacity-add-size :
    {b : Buffer}
    → IsValid b
    → (size b + capacity b ≤ b.alloc) × ((capacity b ≡ 0) ↔ (b.alloc ≤ b.size + 1))
unfolding capacity size
capacity-add-size v = (ground arith, (λ h. ground arith, λ h. ground arith))
