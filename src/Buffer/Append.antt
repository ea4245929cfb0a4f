-- ===== src/Buffer/Append.antt =====
-- The appending functions: the data grows by exactly the new bytes, inside the block.
use erishttp.Common.{
  ℕ, ◌+◌, ◌^◌, ◌≤◌, ◌<◌, ◌≡◌, ◌⊎◌, inl, inr, refl, ◌∙◌, ap, subst, Option, none, some, List, [],
  ◌∷◌, ◌++◌, Bool-cases, arith, length, take, take-set, length-replicate, length-take, leb, ltb,
  Errno, ok, error, if◌then◌else◌, true,
}
use erishttp.Buffer.Block.{Grant, bytes_of, fresh, length-memory_copy, take-memory_copy}
use erishttp.Buffer.{
  Buffer, contents, sub_size, add_size, grow, moved, put_tail, put_bytes, put_nul, append, append_c,
  append_es, then_put,
}
use erishttp.Buffer.Inv.{IsValid, IsTerminated, length-put_nul, put_nul-IsTerminated}

pub length-contents : {b : Buffer} → IsValid b → length (contents b) ≡ b.size
length-contents {b} v = omega (arith, length-take b.size (bytes_of b.block))

pub take-put_nul :
    (n i : ℕ) (p : Option (List ℕ)) → n ≤ i → take n (bytes_of (put_nul p i)) ≡ take n (bytes_of p)
take-put_nul n i none h = refl
take-put_nul n i (some xs) h = take-set n i xs 0 h

pub length-put_bytes :
    (p : Option (List ℕ)) (i : ℕ) (xs : List ℕ)
    → length (bytes_of (put_bytes p i xs)) ≡ length (bytes_of p)
length-put_bytes none i xs = refl
length-put_bytes (some ys) i xs = length-memory_copy ys i xs

pub take-put_bytes :
    (p : Option (List ℕ)) (i : ℕ) (xs : List ℕ)
    → i + length xs < length (bytes_of p)
    → take (i + length xs) (bytes_of (put_bytes p i xs)) ≡ take i (bytes_of p) ++ xs
take-put_bytes none i xs h = absurd (omega arith)
take-put_bytes (some ys) i xs h = take-memory_copy ys i xs (i + length xs) (omega arith) refl

-- what the tail of an append leaves
pub record Appended (b : Buffer) (xs : List ℕ) (b' : Buffer) : Type 0 where
  pub valid : IsValid b'
  pub bytes : contents b' ≡ contents b ++ xs
  pub closed : IsTerminated b'

put_tail-Appended :
    {b : Buffer} (xs : List ℕ)
    → IsValid b
    → b.size + length xs < b.alloc
    → Appended b xs (put_tail b xs)
put_tail-Appended {b} xs v h =
    let n : add_size b.size (length xs) ≡ b.size + length xs = omega arith in
    let l : length (bytes_of (put_bytes b.block b.size xs)) ≡ b.alloc =
      omega (arith, length-put_bytes b.block b.size xs) in
    rw n (record {
      valid = record {
        sized = omega (arith, length-put_nul (put_bytes b.block b.size xs) (b.size + length xs));
        room = omega arith;
        small = omega arith;
      };
      bytes =
          take-put_nul (b.size + length xs) (b.size + length xs) (put_bytes b.block b.size xs)
            (omega arith)
          ∙ take-put_bytes b.block b.size xs (omega arith);
      closed =
          put_nul-IsTerminated (put_bytes b.block b.size xs) (b.size + length xs) (omega arith);
    })

-- the larger block holds the same data
moved-IsValid :
    (junk n : ℕ) {b : Buffer}
    → IsValid b
    → b.size < n
    → n < 2 ^ 64
    → IsValid (moved junk n b) × (contents (moved junk n b) ≡ contents b)
moved-IsValid junk n {b} v h small = (
  record {
    sized =
        omega (arith, length-memory_copy (fresh n junk) 0 (contents b), length-replicate n junk);
    room = omega arith;
    small = small;
  },
  take-memory_copy (fresh n junk) 0 (contents b) b.size
      (omega (arith, length-contents v, length-replicate n junk))
      (omega (arith, length-contents v)),
)

-- Either the data went in, or the allocator refused a block that was needed and nothing changed.
abbrev pub Outcome : Grant → Buffer → List ℕ → Errno × Buffer → Type 0
Outcome g b xs (rc, b') =
    ((rc ≡ ok) × Appended b xs b')
    ⊎ ((rc ≡ error) × (b' ≡ b) × (g ≡ none) × (b.alloc ≤ b.size + length xs))

then_put-Outcome :
    (g : Grant) {b : Buffer} (xs : List ℕ) (n : ℕ)
    → IsValid b
    → b.size + length xs < n
    → n < 2 ^ 64
    → Outcome g b xs
        (then_put xs b (if leb (sub_size b.alloc b.size) (length xs) then grow g n b else some b))
then_put-Outcome g {b} xs n v h small =
    elim (Bool-cases (leb (sub_size b.alloc b.size) (length xs))) [
      | inr fits ↦ rw fits (inl (refl, put_tail-Appended xs v (ground arith)))
      | inl tight ↦ rw tight (needed g tight)
    ]
  where
    needed :
        (g' : Grant)
        → leb (sub_size b.alloc b.size) (length xs) ≡ true
        → Outcome g' b xs (then_put xs b (grow g' n b))
    needed none t = inr (refl, refl, refl, ground arith)
    needed (some junk) t =
        let (v', same) = moved-IsValid junk n v (omega arith) small in
        let a : Appended (moved junk n b) xs (put_tail (moved junk n b) xs) =
          put_tail-Appended xs v' (omega arith) in
        inl (
          refl,
          record { valid = a.valid; bytes = a.bytes ∙ ap (λ t. t ++ xs) same; closed = a.closed },
        )

-- `eris_buffer_append` of at least one byte to a valid buffer, with sizes that do not overflow:
-- either it returns 0, the data is the old data with the new bytes behind, terminated, and the
-- buffer is valid, or it returns EERIS_ERROR with the buffer unchanged, which happens only when the
-- allocator refuses and the free room is too small.
pub append-Outcome :
    (g : Grant) {b : Buffer} (x : ℕ) (xs : List ℕ)
    → IsValid b
    → b.alloc + length (x ∷ xs) + 4 < 2 ^ 64
    → Outcome g b (x ∷ xs) (append g b (x ∷ xs))
unfolding append
append-Outcome g {b} x xs v h =
    let n : add_size (add_size b.alloc (length (x ∷ xs))) 4 ≡ b.alloc + length (x ∷ xs) + 4 =
      omega arith in
    rw n (then_put-Outcome g (x ∷ xs) (b.alloc + length (x ∷ xs) + 4) v (omega arith) h)

-- `eris_buffer_append_c`, the NUL byte included: the same with one byte.
pub append_c-Outcome :
    (g : Grant) {b : Buffer} (c : ℕ)
    → IsValid b
    → b.alloc + 4 < 2 ^ 64
    → Outcome g b (c ∷ []) (append_c g b c)
unfolding append_c
append_c-Outcome g {b} c v h =
    let n : add_size b.alloc 4 ≡ b.alloc + 4 = omega arith in
    rw n (then_put-Outcome g (c ∷ []) (b.alloc + 4) v (omega arith) h)

-- `eris_buffer_append_es` of a buffer that holds data: the same with that data.
pub append_es-Outcome :
    (g : Grant) {src dst : Buffer}
    → IsValid src
    → IsValid dst
    → 0 < dst.size
    → src.alloc + dst.size + 4 < 2 ^ 64
    → Outcome g src (contents dst) (append_es g src dst)
unfolding append_es
append_es-Outcome g {src} {dst} v w p h =
    let t : ltb 0 dst.size ≡ true = ground arith in
    let n : add_size (add_size src.alloc dst.size) 4 ≡ src.alloc + dst.size + 4 = omega arith in
    let l = length-contents w in
    rw (t, n)
      (subst
        (λ k. Outcome g src (contents dst) (
          then_put (contents dst) src (
            if leb (sub_size src.alloc src.size) k
            then grow g (src.alloc + dst.size + 4) src
            else some src)))
        l (then_put-Outcome g (contents dst) (src.alloc + dst.size + 4) v (omega (arith, l)) h))

-- One byte costs at most four bytes of allocation.
pub alloc-append_c :
    (g : Grant) (b : Buffer) (c : ℕ) → b.alloc + 4 < 2 ^ 64 → (append_c g b c).1.alloc ≤ b.alloc + 4
unfolding append_c
alloc-append_c none b c h = ground arith
alloc-append_c (some junk) b c h = ground arith
