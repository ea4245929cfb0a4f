-- ===== src/Buffer/Block.antt =====
-- Heap blocks: `eris_memory_alloc`, `eris_memory_realloc` and `eris_memory_copy` as the buffers
-- use them.
use erishttp.Common.{
  ℕ, zero, suc, ◌+◌, ◌≤◌, ◌≡◌, refl, ap, Option, none, some, List, [], ◌∷◌, ◌++◌, arith, length,
  take, replicate, length-append, length-replicate, length-take,
}

-- The allocator's answer: refused, or granted with this unspecified byte in the new memory.
abbrev pub Grant : Type 0
Grant = Option ℕ

abbrev pub fresh : ℕ → ℕ → List ℕ
fresh n junk = replicate n junk

-- `realloc`: the old bytes as far as they fit, the rest unspecified
abbrev pub resize : List ℕ → ℕ → ℕ → List ℕ
resize xs n junk = take n (xs ++ replicate n junk)

abbrev pub bytes_of : Option (List ℕ) → List ℕ
bytes_of none = []
bytes_of (some xs) = xs

-- Bytes that do not fit in the block are dropped; the laws of the parent show that all fit.
abbrev copy_front : List ℕ → List ℕ → List ℕ
copy_front [] ys = []
copy_front (x ∷ xs) [] = x ∷ xs
copy_front (x ∷ xs) (y ∷ ys) = y ∷ copy_front xs ys

-- `memcpy( block + at, ys, size)`
abbrev pub memory_copy : List ℕ → ℕ → List ℕ → List ℕ
memory_copy xs zero ys = copy_front xs ys
memory_copy [] (suc at) ys = []
memory_copy (x ∷ xs) (suc at) ys = x ∷ memory_copy xs at ys

length-copy_front : (xs ys : List ℕ) → length (copy_front xs ys) ≡ length xs
length-copy_front [] ys = refl
length-copy_front (x ∷ xs) [] = refl
length-copy_front (x ∷ xs) (y ∷ ys) = ap suc (length-copy_front xs ys)

pub length-memory_copy :
    (xs : List ℕ) (at : ℕ) (ys : List ℕ) → length (memory_copy xs at ys) ≡ length xs
length-memory_copy xs zero ys = length-copy_front xs ys
length-memory_copy [] (suc at) ys = refl
length-memory_copy (x ∷ xs) (suc at) ys = ap suc (length-memory_copy xs at ys)

take-copy_front :
    (xs ys : List ℕ) (n : ℕ)
    → length ys ≤ length xs
    → n ≡ length ys
    → take n (copy_front xs ys) ≡ ys
take-copy_front xs [] n h e = rw e
take-copy_front [] (y ∷ ys) n h e = absurd (omega arith)
take-copy_front (x ∷ xs) (y ∷ ys) n h e =
    rw e (ap (λ t. y ∷ t) (take-copy_front xs ys (length ys) (omega arith) refl))

-- What fits in the block stands there, behind the bytes that were in front of it.
pub take-memory_copy :
    (xs : List ℕ) (at : ℕ) (ys : List ℕ) (n : ℕ)
    → at + length ys ≤ length xs
    → n ≡ at + length ys
    → take n (memory_copy xs at ys) ≡ take at xs ++ ys
take-memory_copy xs zero ys n h e = take-copy_front xs ys n (omega arith) (omega arith)
take-memory_copy [] (suc at) [] n h e = absurd (omega arith)
take-memory_copy [] (suc at) (y ∷ ys) n h e = absurd (omega arith)
take-memory_copy (x ∷ xs) (suc at) ys n h e =
    let e' : n ≡ suc (at + length ys) = omega arith in
    rw e' (ap (λ t. x ∷ t) (take-memory_copy xs at ys (at + length ys) (omega arith) refl))

pub length-resize : (xs : List ℕ) (n junk : ℕ) → length (resize xs n junk) ≡ n
length-resize xs n junk = omega (
  arith,
  length-take n (xs ++ replicate n junk),
  length-append xs (replicate n junk),
  length-replicate n junk,
)
