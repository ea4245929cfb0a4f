-- ===== src/EString/Find.antt =====
-- `eris_string_find` and its kin of src/core/eris.string.c. Pointers into the string are indices; the
-- memory from the start of the string is its text, the terminator and the spare room of the block.
pub mod Places
pub mod First
pub mod Absent
mod Tests
use erishttp.Common.{
  ℕ, zero, suc, ◌+◌, ◌-◌, Bool, Option, none, some, List, [], ◌∷◌, ◌++◌, ltb, ◌==◌, if◌then◌else◌,
  length, get_elem?, drop,
}
use erishttp.EString.{EString}

-- The result: an index, ERIS_STRING_NPOS, or no result, since a byte behind the block was read or
-- since the rounds were used up.
pub data Found : Type 0 where
  index : ℕ → Found
  npos overrun no_rounds : Found

-- `while ( *d)`: the memory from `s` on, `s`, and the substring from `d` on; `none` is a read behind
-- the block.
unfoldable pub compare_loop : List ℕ → ℕ → List ℕ → Option (ℕ × List ℕ)
compare_loop m s [] = some (s, [])
compare_loop [] s (y ∷ d) = none
compare_loop (x ∷ m) s (y ∷ d) =
    let rest = compare_loop m (suc s) d in if x == y then rest else some (suc s, y ∷ d)

-- The inner `while ( *s)`, where `y` is `*d`: the index of the next `y`, or no index at the
-- terminator.
unfoldable pub skip_loop : List ℕ → ℕ → ℕ → Option (Option ℕ)
skip_loop [] s y = none
skip_loop (x ∷ m) s y =
    let rest = skip_loop m (suc s) y in
    if x == 0 then some none else if x == y then some (some s) else rest

module _ (again : ℕ → Found) (m substr : List ℕ) where
  -- back to where the substring would begin, `d` being behind `matched` of its bytes
  abbrev pub skipped : ℕ → Option (Option ℕ) → Found
  skipped matched none = overrun
  skipped matched (some none) = npos
  skipped matched (some (some s)) = again (s - matched)

  -- `if ( *s && *d)`, with the byte at `s`
  abbrev pub tested : ℕ → List ℕ → Option ℕ → Found
  tested s d none = overrun
  tested s [] (some x) = index (s - length substr)
  tested s (y ∷ d) (some x) =
      if x == 0 then npos else skipped (length substr - length (y ∷ d)) (skip_loop (drop s m) s y)

  abbrev pub compared : Option (ℕ × List ℕ) → Found
  compared none = overrun
  compared (some (s, d)) = tested s d (get_elem? m s)

  -- `while ( *s)`, with the byte at `s`; `d` is at the start of the substring
  abbrev pub entered : ℕ → Option ℕ → Found
  entered s none = overrun
  entered s (some x) = if x == 0 then npos else compared (compare_loop (drop s m) s substr)

unfoldable pub find_loop : ℕ → List ℕ → List ℕ → ℕ → Found
unfolding compare_loop skip_loop
find_loop zero m substr s = no_rounds
find_loop (suc n) m substr s = entered (find_loop n m substr) m substr s (get_elem? m s)

-- the string in its block
abbrev pub memory : List ℕ → List ℕ → List ℕ
memory xs spare = xs ++ (0 ∷ spare)

-- `substr` is a C string: the bytes before its NUL. No round visits a byte a second time, so there
-- are as many rounds as bytes.
unfoldable pub find_at : List ℕ → EString → ℕ → Option (List ℕ) → Found
find_at spare none i substr = npos
find_at spare (some xs) i none = npos
find_at spare (some xs) i (some []) = npos
find_at spare (some xs) i (some (y ∷ ys)) =
    if ltb i (length xs)
    then find_loop (length (memory xs spare)) (memory xs spare) (y ∷ ys) i
    else npos

unfoldable pub find : List ℕ → EString → Option (List ℕ) → Found
unfolding find_at
find spare es substr = find_at spare es 0 substr
