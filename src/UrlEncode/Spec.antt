-- ===== src/UrlEncode/Spec.antt =====
-- What a form-encoded text stands for, described without the automaton.
use erishttp.Common.{
  ℕ, ◌+◌, ◌-◌, ◌*◌, ◌&&◌, Bool, true, false, List, [], ◌∷◌, leb, ◌==◌, if◌then◌else◌, Errno, ok,
  error,
}
use erishttp.UrlEncode.{is_hex, next}

-- the value of a hexadecimal digit
abbrev pub digit : ℕ → ℕ
digit c =
    if leb b'0' c && leb c b'9'
    then c - b'0'
    else if leb b'a' c && leb c b'f'
    then c - b'a' + 10
    else c - b'A' + 10

abbrev pub onto : ℕ → List ℕ × Bool → List ℕ × Bool
onto c (cs, well) = (c ∷ cs, well)

-- a character that is not `%`
abbrev pub literal : ℕ → ℕ
literal c = if c == b'+' then b' ' else c

-- The decoded bytes up to the first bad escape, and whether there is none. A text that breaks off
-- inside an escape is taken as if that escape were not there.
unfoldable pub decoded : List ℕ → List ℕ × Bool
decoded [] = ([], true)
decoded (c ∷ []) = if c == b'%' then ([], true) else (literal c ∷ [], true)
decoded (c ∷ h ∷ []) =
    let rest = onto (literal c) (decoded (h ∷ [])) in if c == b'%' then ([], is_hex h) else rest
decoded (c ∷ h ∷ l ∷ cs) =
    let rest = onto (literal c) (decoded (h ∷ l ∷ cs)) in
    let after = onto (digit h * 16 + digit l) (decoded cs) in
    if c == b'%' then if is_hex h && is_hex l then after else ([], false) else rest

-- Storing bytes one by one, up to the first failure.
unfoldable pub feed : {S : Type 0} → (S → ℕ → Errno × S) → S → List ℕ → Errno × S
feed put s [] = (ok, s)
feed put s (x ∷ xs) = next (put s x) (λ s'. feed put s' xs)

-- the outcome for a text with or without a bad escape
abbrev pub finish : {S : Type 0} → Errno × S → Bool → Errno × S
finish r true = r
finish r false = next r (λ s. (error, s))
