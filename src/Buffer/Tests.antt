-- ===== src/Buffer/Tests.antt =====
-- Runs of the buffer functions, and the theorems at concrete buffers.
use erishttp.Common.{◌+◌, ◌≡◌, ◌↔◌, ◌≤◌, ◌⊎◌, refl, some, none, [], ◌∷◌, arith, ok, error}
use erishttp.Buffer.Block.{Grant}
use erishttp.Buffer.{Buffer, contents, empty, capacity, size, append, copy_at}
use erishttp.Buffer.Inv.{IsValid, capacity-add-size}
use erishttp.Buffer.Append.{Outcome, append-Outcome}
use erishttp.Buffer.Copy.{Holds, copy_at_lem}

abbrev granted : Grant
granted = some 99

-- two bytes of data in a block of five
abbrev two : Buffer
two = record { alloc = 5; size = 2; block = some (7 ∷ 8 ∷ 0 ∷ 0 ∷ 0 ∷ []) }

abbrev three : Buffer
three = record { alloc = 4; size = 3; block = some (1 ∷ 2 ∷ 3 ∷ 0 ∷ []) }

two-IsValid : IsValid two
two-IsValid = omega arith

three-IsValid : IsValid three
three-IsValid = omega arith

append_runs : contents (append (some 99) two (1 ∷ 2 ∷ 3 ∷ [])).1 ≡ 7 ∷ 8 ∷ 1 ∷ 2 ∷ 3 ∷ []
unfolding append
append_runs = refl

append_grows : (append (some 99) two (1 ∷ 2 ∷ 3 ∷ [])).1.alloc ≡ 12
unfolding append
append_grows = refl

capacity-add-size_example : (size two + capacity two ≤ 5) × ((capacity two ≡ 0) ↔ (5 ≤ 3))
capacity-add-size_example = capacity-add-size two-IsValid

append-Outcome_example :
    Outcome (some 99) two (1 ∷ 2 ∷ 3 ∷ []) (append (some 99) two (1 ∷ 2 ∷ 3 ∷ []))
append-Outcome_example = append-Outcome (some 99) 1 (2 ∷ 3 ∷ []) two-IsValid (omega arith)

-- a destination of four bytes is too small for four bytes of data
abbrev four : Buffer
four = record { alloc = 6; size = 4; block = some (1 ∷ 2 ∷ 3 ∷ 4 ∷ 0 ∷ 0 ∷ []) }

copy_at_lem_example :
    let (rc, b) = copy_at granted two three 1 in
    ((rc ≡ ok) × Holds (2 ∷ 3 ∷ []) b) ⊎ ((rc ≡ error) × (b ≡ empty) × (granted ≡ none) × (5 ≤ 2))
copy_at_lem_example = copy_at_lem granted 1 two-IsValid three-IsValid (omega arith)
