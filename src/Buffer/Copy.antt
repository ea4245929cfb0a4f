-- ===== src/Buffer/Copy.antt =====
-- `eris_buffer_copy` and `eris_buffer_copy_at`.
use erishttp.Common.{
  ℕ, ◌-◌, ◌^◌, ◌≤◌, ◌<◌, ◌≡◌, ◌⊎◌, inl, inr, refl, ◌∙◌, subst, Option, none, some, List, ◌&&◌,
  Bool-cases, arith, length, take, drop, length-replicate, length-drop, ltb, ok, error,
  if◌then◌else◌, true, false,
}
use erishttp.Buffer.Block.{Grant, bytes_of, fresh, length-resize}
use erishttp.Buffer.{
  Buffer, contents, empty, add_size, overwrite, reserve, resized, replace, then_overwrite, is_null,
  copy, copy_at, put_bytes,
}
use erishttp.Buffer.Inv.{IsValid, IsTerminated, length-put_nul, put_nul-IsTerminated}
use erishttp.Buffer.Append.{length-contents, take-put_nul, length-put_bytes, take-put_bytes}

-- what a copy leaves in the destination
pub record Holds (xs : List ℕ) (b : Buffer) : Type 0 where
  pub valid : IsValid b
  pub bytes : contents b ≡ xs
  pub closed : IsTerminated b

overwrite-Holds :
    (b : Buffer) (xs : List ℕ)
    → length (bytes_of b.block) ≡ b.alloc
    → b.alloc < 2 ^ 64
    → length xs < b.alloc
    → Holds xs (overwrite b xs)
overwrite-Holds b xs sized small h = record {
  valid = record {
    sized =
        omega (
          arith,
          length-put_nul (put_bytes b.block 0 xs) (length xs),
          length-put_bytes b.block 0 xs,
        );
    room = omega arith;
    small = small;
  };
  bytes =
      take-put_nul (length xs) (length xs) (put_bytes b.block 0 xs) (omega arith)
      ∙ subst (λ n. take n (bytes_of (put_bytes b.block 0 xs)) ≡ xs) (omega arith)
          (take-put_bytes b.block 0 xs (omega arith));
  closed =
      put_nul-IsTerminated (put_bytes b.block 0 xs) (length xs)
        (omega (arith, length-put_bytes b.block 0 xs));
}

-- `eris_buffer_copy` from a buffer that holds data: either it returns 0 and the destination is a
-- valid, terminated buffer with the source's data, or it returns EERIS_ERROR, which happens only
-- when the allocator refuses and the destination is too small, and leaves the destination with its
-- old sizes and no block.
pub copy_lem :
    (g : Grant) {dst src : Buffer}
    → IsValid dst
    → IsValid src
    → 0 < src.size
    → let (rc, b) = copy g dst src in
      ((rc ≡ ok) × Holds (contents src) b)
      ⊎ ((rc ≡ error) × (b ≡ record dst { block = none }) × (g ≡ none) × (dst.alloc ≤ src.size))
unfolding copy
copy_lem g {dst} {src} v w p =
    let t : ltb 0 src.size ≡ true = ground arith in
    let l = length-contents w in
    rw t
      (elim (Bool-cases (ltb src.size dst.alloc && (if is_null dst.block then false else true))) [
        | inl fits ↦
            rw fits (inl (refl, overwrite-Holds dst (contents src) v.sized v.small (ground arith)))
        | inr tight ↦ rw tight (reserved g (too_small tight))
      ])
  where
    has_block : (p : Option (List ℕ)) → 0 < length (bytes_of p) → is_null p ≡ false
    has_block none h = absurd (omega arith)
    has_block (some xs) h = refl

    too_small :
        (ltb src.size dst.alloc && (if is_null dst.block then false else true)) ≡ false
        → dst.alloc ≤ src.size
    too_small e = elim (Bool-cases (ltb src.size dst.alloc)) [
      | inl y ↦ absurd (ground (arith, has_block dst.block (ground (arith, v.sized))))
      | inr n ↦ ground arith
    ]

    reserved :
        (g' : Grant)
        → dst.alloc ≤ src.size
        → let (rc, b) = then_overwrite (contents src) (reserve g' dst src.alloc) in
          ((rc ≡ ok) × Holds (contents src) b)
          ⊎ ((rc ≡ error)
              × (b ≡ record dst { block = none })
              × (g' ≡ none)
              × (dst.alloc ≤ src.size))
    reserved none d = inr (refl, refl, refl, d)
    reserved (some junk) d = inl (
      refl,
      overwrite-Holds (resized junk src.alloc dst) (contents src)
          (elim (Bool-cases ((if is_null dst.block then false else true) && ltb 0 dst.alloc)) [
            | inl y ↦ rw y (length-resize (bytes_of dst.block) src.alloc junk)
            | inr n ↦ rw n (length-replicate src.alloc junk)
          ])
          w.small (omega (arith, length-contents w)),
    )

-- A refused reallocation leaves a destination that had a block in a state that breaks the
-- invariant: its sizes speak of memory that it does not have.
pub copy_refused :
    {dst : Buffer} (src : Buffer)
    → IsValid dst
    → 0 < dst.alloc
    → dst.alloc ≤ src.size
    → ((copy none dst src).0 ≡ error) × ¬ IsValid (copy none dst src).1
unfolding copy
copy_refused {dst} src v p h =
    let t : ltb 0 src.size ≡ true = ground arith in
    let n : ltb src.size dst.alloc ≡ false = ground arith in
    rw (t, n) (refl, λ w. omega (arith, w.sized))

-- `eris_buffer_copy_at` at an index inside the source's data: either it returns 0 and the destination is a valid, terminated buffer with the source's data from
-- that index on, or it returns EERIS_ERROR with a valid, empty destination, which happens only when
-- the allocator refuses and the destination is too small.
pub copy_at_lem :
    (g : Grant) {dst src : Buffer} (at : ℕ)
    → IsValid dst
    → IsValid src
    → at < src.size
    → let (rc, b) = copy_at g dst src at in
      ((rc ≡ ok) × Holds (drop at (contents src)) b)
      ⊎ ((rc ≡ error) × (b ≡ empty) × (g ≡ none) × (dst.alloc ≤ src.size - at))
unfolding copy_at
copy_at_lem g {dst} {src} at v w p =
    let t : ltb at src.size ≡ true = ground arith in
    rw t (elim (Bool-cases (ltb (src.size - at) dst.alloc)) [
      | inl fits ↦ rw fits (
          inl (
            refl,
            overwrite-Holds dst (drop at (contents src)) v.sized v.small (ground (arith, rest)),
          ))
      | inr tight ↦ rw tight (replaced g (ground arith))
    ])
  where
    rest : length (drop at (contents src)) ≡ src.size - at
    rest = omega (arith, length-drop at (contents src), length-contents w)

    replaced :
        (g' : Grant)
        → dst.alloc ≤ src.size - at
        → let (rc, b) = replace g' dst (drop at (contents src)) in
          ((rc ≡ ok) × Holds (drop at (contents src)) b)
          ⊎ ((rc ≡ error) × (b ≡ empty) × (g' ≡ none) × (dst.alloc ≤ src.size - at))
    replaced none d = inr (refl, refl, refl, d)
    replaced (some junk) d = inl (
      refl,
      overwrite-Holds
          (record dst {
            alloc = add_size (length (drop at (contents src))) 1;
            block = some (fresh (add_size (length (drop at (contents src))) 1) junk);
          })
          (drop at (contents src))
          (length-replicate (add_size (length (drop at (contents src))) 1) junk) (omega arith)
          (omega (arith, rest, w.room, w.small)),
    )
