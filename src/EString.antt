-- ===== src/EString.antt =====
-- src/core/eris.string.c: the length-prefixed strings. A string is NULL or its bytes up to `size`;
-- which of the five headers stores the size, and the spare room behind it, do not show here; the
-- searches and the replacement take the spare room beside the string.
mod Tests
pub mod Append
pub mod Compare
pub mod Hex
pub mod Decimal
pub mod Reverse
pub mod Number
pub mod Signed
pub mod Strip
pub mod Find
pub mod Split
pub mod Replace
pub mod Rotation
use erishttp.Common.{
  ℕ, ◌+◌, ◌-◌, ◌&&◌, Bool, true, false, Option, none, some, List, [], ◌∷◌, ◌++◌, leb, ltb, ◌==◌,
  if◌then◌else◌, length, get_or, map, Errno, ok, error,
}

-- `eris_string_t`
abbrev pub EString : Type 0
EString = Option (List ℕ)

abbrev pub text : EString → List ℕ
text none = []
text (some xs) = xs

unfoldable pub size : EString → ℕ
size none = 0
size (some xs) = length xs

-- '\0' out of range
unfoldable pub at : EString → ℕ → ℕ
at none i = 0
at (some xs) i = get_or xs i 0

unfoldable pub cleanup : EString → EString
cleanup none = none
cleanup (some xs) = some []

unfoldable pub free : EString → EString
free es = none

-- `granted` is the allocator's answer, which is needed for a NULL string only: a refused
-- reallocation is not seen by the code. A NUL byte is written as the terminator and not counted.
unfoldable pub append_c : Bool → EString → ℕ → Errno × EString
append_c true none c = (ok, some (if c == 0 then [] else c ∷ []))
append_c false none c = (error, none)
append_c granted (some xs) c = (ok, some (if c == 0 then xs else xs ++ (c ∷ [])))

-- `s` is a C string: the bytes before its NUL.
unfoldable pub append : Bool → EString → List ℕ → Errno × EString
append true none s = (ok, some s)
append false none s = (error, none)
append granted (some xs) s = (ok, some (xs ++ s))

-- A clone of a NULL string is NULL.
unfoldable pub clone_eris : Bool → EString → EString
clone_eris granted none = none
clone_eris true (some xs) = some xs
clone_eris false (some xs) = none

-- C's `tolower` in the "C" locale
abbrev pub to_lower : ℕ → ℕ
to_lower c = if leb b'A' c && leb c b'Z' then c + 32 else c

-- The order of two `char`s, which are signed: the bytes from 128 on are negative.
abbrev pub char_rank : ℕ → ℕ
char_rank c = if ltb c 128 then c + 128 else c - 128

-- -1 (EERIS_ERROR), 0 and 1
pub data Comparison : Type 0 where
  less equal greater : Comparison

-- the loop of `eris_string_compare` over two strings without NUL bytes
abbrev pub compare_bytes : Bool → List ℕ → List ℕ → Comparison
compare_bytes ignore_case [] [] = equal
compare_bytes ignore_case [] (y ∷ ys) = less
compare_bytes ignore_case (x ∷ xs) [] = greater
compare_bytes ignore_case (x ∷ xs) (y ∷ ys) =
    let rest = compare_bytes ignore_case xs ys in
    let a = if ignore_case then to_lower x else x in
    let b = if ignore_case then to_lower y else y in
    if a == b then rest else if ltb (char_rank a) (char_rank b) then less else greater

unfoldable pub compare : Bool → EString → Option (List ℕ) → Comparison
compare ignore_case (some xs) (some ys) = compare_bytes ignore_case xs ys
compare ignore_case none none = equal
compare ignore_case none (some ys) = less
compare ignore_case (some xs) none = greater

unfoldable pub is_equal : Bool → EString → Option (List ℕ) → Bool
unfolding compare
is_equal ignore_case es s = elim (compare ignore_case es s) [ equal ↦ true | _ ↦ false ]

-- `eris_string_set` with a C string
unfoldable pub set_string : Bool → EString → List ℕ → Errno × EString
unfolding append cleanup
set_string granted es [] = (ok, cleanup es)
set_string granted es (x ∷ s) = append granted (cleanup es) (x ∷ s)
