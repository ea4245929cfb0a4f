-- ===== src/EString/Split.antt =====
-- `eris_string_assign` and `eris_string_split_eris` of src/core/eris.string.c. The list of ranges,
-- which is local to the function and only appended to, is a sequence.
pub mod Cut
pub mod Fields
mod Tests
use erishttp.Common.{
  ℕ, zero, suc, ◌+◌, ◌-◌, ◌&&◌, Bool, true, false, Option, none, some, List, [], ◌∷◌, ltb, leb,
  if◌then◌else◌, length, take, drop,
}
use erishttp.EString.{EString}
use erishttp.EString.Find.{Found, find_at}

-- The result of a call that may find no memory, read behind a block, or use up its rounds.
pub data Outcome {ℓ} (A : Type ℓ) : Type ℓ where
  value : A → Outcome A
  refused overrun no_rounds : Outcome A

abbrev pub onto : {A : Type 0} → A → Outcome (List A) → Outcome (List A)
onto x (value xs) = value (x ∷ xs)
onto x refused = refused
onto x overrun = overrun
onto x no_rounds = no_rounds

-- the bytes from `b` up to `e`; one byte if there are none
abbrev pub copied : List ℕ → ℕ → ℕ → EString
copied xs b e = some (take (if ltb b e then e - b else 1) (drop b xs))

-- `granted` is the allocator's answer.
unfoldable pub assign : Bool → EString → ℕ → ℕ → EString
assign granted none b e = none
assign false (some xs) b e = none
assign true (some xs) b e =
    let e' = if ltb (length xs) e then length xs else e in
    if ltb b (length xs) && leb b e' then copied xs b e' else some []

-- `eris_string_range_s`: start and end
abbrev pub Range : Type 0
Range = ℕ × ℕ

-- a range is stored, unless there is no memory for it
abbrev pub stored : Bool → Range → Outcome (List Range) → Outcome (List Range)
stored granted range rest = if granted then onto range rest else refused

module _ (granted : ℕ → Bool) (spare xs sp : List ℕ) where
  -- what a round does with the place of the separator; `rest` are the next rounds
  abbrev pub cut_at : (ℕ → ℕ → Outcome (List Range)) → ℕ → ℕ → Found → Outcome (List Range)
  cut_at rest k start (Found.index pos) =
      if ltb start pos
      then stored (granted k) (start, pos) (rest (suc k) (pos + length sp))
      else rest k (pos + length sp)
  cut_at rest k start Found.npos =
      if ltb (start + 1) (length xs)
      then stored (granted k) (start, length xs) (value [])
      else value []
  cut_at rest k start Found.overrun = overrun
  cut_at rest k start Found.no_rounds = no_rounds

  -- the `do` loop: `k` ranges are stored, and `start` is also `at`
  unfoldable pub split_loop : ℕ → ℕ → ℕ → Outcome (List Range)
  unfolding find_at
  split_loop zero k start = no_rounds
  split_loop (suc n) k start =
      cut_at (split_loop n) k start (find_at spare (some xs) start (some sp))

abbrev pub placed : EString → Outcome (List EString) → Outcome (List EString)
placed none rest = refused
placed (some w) rest = onto (some w) rest

-- the strings of the ranges; `granted` has the answers of the allocator by their places
unfoldable pub assign_all : (ℕ → Bool) → ℕ → List ℕ → List Range → Outcome (List EString)
unfolding assign
assign_all granted k xs [] = value []
assign_all granted k xs ((b, e) ∷ ranges) =
    let rest = assign_all granted (suc k) xs ranges in
    placed (assign (granted k) (some xs) b e) rest

-- NULL or the array, of which there is none if a piece is refused
abbrev pub assigned : Outcome (List EString) → Outcome (Option (List EString))
assigned (value ws) = value (some ws)
assigned refused = value none
assigned overrun = overrun
assigned no_rounds = no_rounds

-- without a range there is no array
abbrev pub array :
    Bool → (ℕ → Bool) → List ℕ → Outcome (List Range) → Outcome (Option (List EString))
array room pieces xs (value []) = value none
array false pieces xs (value (r ∷ rs)) = value none
array true pieces xs (value (r ∷ rs)) = assigned (assign_all pieces 0 xs (r ∷ rs))
array room pieces xs refused = value none
array room pieces xs overrun = overrun
array room pieces xs no_rounds = no_rounds

-- `ranges`, `room` and `pieces` are the allocator's answers for the ranges, the array and the pieces.
unfoldable pub split_eris :
    (ranges : ℕ → Bool) (room : Bool) (pieces : ℕ → Bool)
    → List ℕ
    → EString
    → List ℕ
    → Outcome (Option (List EString))
unfolding split_loop assign_all
split_eris ranges room pieces spare none sp = value none
split_eris ranges room pieces spare (some xs) sp =
    array room pieces xs (split_loop ranges spare xs sp (suc (length xs)) 0 0)
