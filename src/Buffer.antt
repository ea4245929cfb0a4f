-- ===== src/Buffer.antt =====
-- src/core/eris.buffer.c: a growing byte buffer over one heap block.
-- A context is a record; an operation returns the new one, behind its return code where it has one.
pub mod Block
pub mod Inv
pub mod Append
pub mod Copy
mod Tests
use erishttp.Common.{
  ℕ, ◌+◌, ◌-◌, ◌%◌, ◌^◌, ◌&&◌, Bool, true, false, Option, none, some, List, [], ◌∷◌, ltb, leb, ◌==◌,
  if◌then◌else◌, length, set, take, drop, Errno, ok, error,
}
use Block.{Grant, bytes_of, fresh, resize, memory_copy}

-- `eris_buffer_s`. `data` is NULL or a block; the code keeps its length in `alloc`.
pub record Buffer : Type 0 where
  pub alloc : ℕ
  pub size : ℕ
  pub block : Option (List ℕ)

-- `size_t` arithmetic
abbrev pub add_size : ℕ → ℕ → ℕ
add_size a b = (a + b) % 2 ^ 64

abbrev pub sub_size : ℕ → ℕ → ℕ
sub_size a b = (2 ^ 64 + a - b) % 2 ^ 64

-- what the buffer holds
abbrev pub contents : Buffer → List ℕ
contents b = take b.size (bytes_of b.block)

abbrev pub empty : Buffer
empty = record { alloc = 0; size = 0; block = none }

-- `data[i] = '\0'`
abbrev pub put_nul : Option (List ℕ) → ℕ → Option (List ℕ)
put_nul none i = none
put_nul (some xs) i = some (set xs i 0)

-- `data[i..] = xs`
abbrev pub put_bytes : Option (List ℕ) → ℕ → List ℕ → Option (List ℕ)
put_bytes none i xs = none
put_bytes (some ys) i xs = some (memory_copy ys i xs)

-- `eris_memory_cleanup` of a new block clears all of it.
unfoldable pub init : Grant → ℕ → Errno × Buffer
init g cap = if ltb 0 cap then created g else (ok, empty)
  where
    created : Grant → Errno × Buffer
    created none = (error, empty)
    created (some junk) = (ok, record { alloc = cap; size = 0; block = some (fresh cap 0) })

unfoldable pub size : Buffer → ℕ
size b = b.size

unfoldable pub capacity : Buffer → ℕ
capacity b = if ltb (add_size b.size 1) b.alloc then sub_size b.alloc b.size else 0

unfoldable pub cleanup : Buffer → Buffer
cleanup b = if ltb 0 b.alloc then record b { size = 0; block = put_nul b.block 0 } else empty

unfoldable pub free : Buffer → Buffer
free b = empty

unfoldable pub destroy : Buffer → Buffer
destroy b = empty

-- The `alloc`, `copy`, `free` of the appending functions: a new block of `n` bytes that begins with
-- the old data.
abbrev pub moved : ℕ → ℕ → Buffer → Buffer
moved junk n b = record b {
  alloc = n;
  block = some (memory_copy (fresh n junk) 0 (take b.size (bytes_of b.block)));
}

-- `none` where the allocation is refused
abbrev pub grow : Grant → ℕ → Buffer → Option Buffer
grow none n b = none
grow (some junk) n b = some (moved junk n b)

-- The tail of the appending functions: copy behind the data, then the terminator.
abbrev pub put_tail : Buffer → List ℕ → Buffer
put_tail b xs =
    let n = add_size b.size (length xs) in
    record b { size = n; block = put_nul (put_bytes b.block b.size xs) n }

-- after the reallocation, if one was made
abbrev pub then_put : List ℕ → Buffer → Option Buffer → Errno × Buffer
then_put xs old none = (error, old)
then_put xs old (some b) = (ok, put_tail b xs)

-- `xs` is what `__ptr` and `__size` give; a NULL or empty input is `[]`.
unfoldable pub append : Grant → Buffer → List ℕ → Errno × Buffer
append g b [] = (ok, b)
append g b (x ∷ xs) =
    let n = length (x ∷ xs) in
    then_put (x ∷ xs) b (
      if leb (sub_size b.alloc b.size) n
      then grow g (add_size (add_size b.alloc n) 4) b
      else some b)

unfoldable pub append_c : Grant → Buffer → ℕ → Errno × Buffer
append_c g b c =
    then_put (c ∷ []) b
      (if leb (sub_size b.alloc b.size) 1 then grow g (add_size b.alloc 4) b else some b)

-- `__src` is the buffer that grows, `__dst` the one that is read.
unfoldable pub append_es : Grant → Buffer → Buffer → Errno × Buffer
append_es g src dst =
    if ltb 0 dst.size
    then then_put (contents dst) src (
        if leb (sub_size src.alloc src.size) dst.size
        then grow g (add_size (add_size src.alloc dst.size) 4) src
        else some src)
    else (ok, src)

abbrev pub is_null : Option (List ℕ) → Bool
is_null none = true
is_null (some _) = false

-- the data of `xs` at the front, the new size, the terminator
abbrev pub overwrite : Buffer → List ℕ → Buffer
overwrite b xs = record b { size = length xs; block = put_nul (put_bytes b.block 0 xs) (length xs) }

-- the destination after a granted `realloc` of its block, or `alloc` where it has none
abbrev pub resized : ℕ → ℕ → Buffer → Buffer
resized junk n dst = record dst {
  alloc = n;
  block = some (
      if (if is_null dst.block then false else true) && ltb 0 dst.alloc
      then resize (bytes_of dst.block) n junk
      else fresh n junk);
}

-- The two allocations of `eris_buffer_copy` for a destination that is too small. When the
-- allocation is refused `data` is NULL and `alloc` stays.
abbrev pub reserve : Grant → Buffer → ℕ → Errno × Buffer
reserve none dst n = (error, record dst { block = none })
reserve (some junk) dst n = (ok, resized junk n dst)

abbrev pub then_overwrite : List ℕ → Errno × Buffer → Errno × Buffer
then_overwrite xs (ok, b) = (ok, overwrite b xs)
then_overwrite xs (rc, b) = (rc, b)

unfoldable pub copy : Grant → Buffer → Buffer → Errno × Buffer
copy g dst src =
    if ltb 0 src.size
    then if ltb src.size dst.alloc && (if is_null dst.block then false else true)
      then (ok, overwrite dst (contents src))
      else then_overwrite (contents src) (reserve g dst src.alloc)
    else (ok, record dst { size = 0 })

-- a new block for exactly `xs` and the terminator, after the old one is freed
abbrev pub replace : Grant → Buffer → List ℕ → Errno × Buffer
replace none dst xs = (error, empty)
replace (some junk) dst xs =
    let n = add_size (length xs) 1 in
    (ok, overwrite (record dst { alloc = n; block = some (fresh n junk) }) xs)

unfoldable pub copy_at : Grant → Buffer → Buffer → ℕ → Errno × Buffer
copy_at g dst src at =
    if ltb at src.size
    then if ltb (src.size - at) dst.alloc
      then (ok, overwrite dst (drop at (contents src)))
      else replace g dst (drop at (contents src))
    else (ok, record dst { size = 0 })
