-- ===== src/EString/Replace.antt =====
-- `eris_string_replace` of src/core/eris.string.c on the bytes of the block of a string.
pub mod Bytes
pub mod Parts
mod Tests
pub mod Replaced
use erishttp.Common.{
  ℕ, zero, suc, ◌+◌, ◌-◌, Bool, true, false, Option, none, some, List, [], ◌∷◌, ◌++◌, leb, ◌==◌,
  if◌then◌else◌, length, get_or, set, take, drop, replicate, Errno, ok, error,
}
use erishttp.EString.{EString}
use erishttp.EString.Find.{Found, find, memory}
use erishttp.EString.Split.{Outcome}

-- `(*__esp)[ pos + i] = __repstr[ i]`
unfoldable pub write : ℕ → List ℕ → List ℕ → List ℕ
write at [] m = m
write at (c ∷ cs) m = write (suc at) cs (set m at c)

-- The bytes from `from` up to a NUL, moved to `to`; the result begins with the end of the place. There
-- are no more rounds than bytes in the text.
unfoldable pub shift_left : ℕ → ℕ → ℕ → List ℕ → ℕ × List ℕ
shift_left zero to from m = (to, m)
shift_left (suc n) to from m =
    let rest = shift_left n (suc to) (suc from) (set m to (get_or m from 0)) in
    if get_or m from 0 == 0 then (to, m) else rest

unfoldable pub fill : ℕ → ℕ → List ℕ → List ℕ
fill zero at m = m
fill (suc k) at m = fill k (suc at) (set m at 0)

-- `k` bytes from `low` on, moved by `step`, the last one first
unfoldable pub shift_right : ℕ → ℕ → ℕ → List ℕ → List ℕ
shift_right zero low step m = m
shift_right (suc k) low step m =
    shift_right k low step (set m (low + k + step) (get_or m (low + k) 0))

abbrev pub filled : ℕ → ℕ × List ℕ → List ℕ
filled size (at, m) = fill (size - at) at m

-- a replacement that is not longer than the substring
abbrev pub shrunk : ℕ → ℕ → List ℕ → ℕ → List ℕ → List ℕ
shrunk pos sub rep size m =
    filled size (shift_left size (pos + length rep) (pos + sub) (write pos rep m))

-- a longer one, for which there is room
abbrev pub grown : ℕ → ℕ → List ℕ → ℕ → List ℕ → List ℕ
grown pos sub rep size m =
    write pos rep (shift_right (size - (pos + sub) + 1) (pos + sub) (length rep - sub) m)

-- the text and the spare room of a block
abbrev pub Block : Type 0
Block = EString × List ℕ

abbrev pub block_of : ℕ → List ℕ → Block
block_of size m = (some (take size m), drop (suc size) m)

-- A new block has room for the old text and the replacement; its bytes are 0.
abbrev pub moved : Bool → ℕ → ℕ → List ℕ → List ℕ → List ℕ → Errno × Block
moved true pos sub rep xs spare = (
  ok,
  block_of (length xs - sub + length rep)
      (take pos xs ++ (rep ++ (drop (pos + sub) xs ++ replicate (suc sub) 0))),
)
moved false pos sub rep xs spare = (error, (some xs, spare))

abbrev pub replace_at : Bool → ℕ → ℕ → List ℕ → List ℕ → List ℕ → Errno × Block
replace_at granted pos sub rep xs spare =
    if leb (length rep) sub
    then (
      ok,
      block_of (length xs - (sub - length rep)) (shrunk pos sub rep (length xs) (memory xs spare)),
    )
    else if leb (length rep - sub) (length spare)
    then (
      ok,
      block_of (length xs + (length rep - sub)) (grown pos sub rep (length xs) (memory xs spare)),
    )
    else moved granted pos sub rep xs spare

abbrev pub on_found : Bool → ℕ → List ℕ → List ℕ → List ℕ → Found → Outcome (Errno × Block)
on_found granted sub rep xs spare (Found.index pos) =
    Outcome.value (replace_at granted pos sub rep xs spare)
on_found granted sub rep xs spare Found.npos = Outcome.value (ok, (some xs, spare))
on_found granted sub rep xs spare Found.overrun = Outcome.overrun
on_found granted sub rep xs spare Found.no_rounds = Outcome.no_rounds

-- `granted` is the allocator's answer for a new block.
unfoldable pub replace : Bool → Block → (substr repstr : Option (List ℕ)) → Outcome (Errno × Block)
unfolding find write shift_left shift_right fill
replace granted (none, spare) substr repstr = Outcome.value (ok, (none, spare))
replace granted (some xs, spare) none repstr = Outcome.value (ok, (some xs, spare))
replace granted (some xs, spare) (some sub) none = Outcome.value (ok, (some xs, spare))
replace granted (some xs, spare) (some sub) (some rep) =
    on_found granted (length sub) rep xs spare (find spare (some xs) (some sub))
