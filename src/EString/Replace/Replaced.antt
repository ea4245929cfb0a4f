-- ===== src/EString/Replace/Replaced.antt =====
-- A replacement in place or in a new block.
use erishttp.Common.{
  ℕ, suc, ◌+◌, ◌-◌, ◌≤◌, ◌<◌, ◌≡◌, ◌≢◌, inl, inr, ap, ◌∙◌, true, some, List, ◌∷◌, ◌++◌,
  append_assoc, All, length, take, drop, replicate, take-append, leb, Bool-cases, ok, arith,
}
use erishttp.EString.Find.{memory, index, find}
use erishttp.EString.Find.Places.{IsFirst, IsFirst-inside}
use erishttp.EString.Find.First.{find_at-first}
use erishttp.EString.Split.{value}
use erishttp.EString.Replace.{shrunk, grown, moved, replace_at, on_found, replace}
use erishttp.EString.Replace.Parts.{
  replaced, take-Parts, grown-Parts, shrunk-Parts, length-replaced,
}

moved-replaced :
    (pos sub : ℕ) (rep xs spare : List ℕ)
    → pos + sub ≤ length xs
    → moved true pos sub rep xs spare
      ≡ (ok, (some (replaced pos sub rep xs), (moved true pos sub rep xs spare).1.1))
moved-replaced pos sub rep xs spare h =
    ap (λ t. (ok, (some t, (moved true pos sub rep xs spare).1.1)))
      (ap (λ n. take n (take pos xs ++ (rep ++ (drop (pos + sub) xs ++ replicate (suc sub) 0))))
          size
        ∙ ap (take (length (replaced pos sub rep xs))) (simp append_assoc)
        ∙ take-append (replaced pos sub rep xs) (replicate (suc sub) 0))
  where
    size : length xs - sub + length rep ≡ length (replaced pos sub rep xs)
    size = omega (arith, h, length-replaced pos sub rep xs h)

replace_at-replaced :
    (pos sub : ℕ) (rep xs spare : List ℕ)
    → pos + sub ≤ length xs
    → All (λ x. x ≢ 0) xs
    → (spare' : List ℕ) × (replace_at true pos sub rep xs spare
        ≡ (ok, (some (replaced pos sub rep xs), spare')))
replace_at-replaced pos sub rep xs spare h nz = elim (Bool-cases (leb (length rep) sub)) [
  | inl y ↦
      let k : length rep ≤ sub = ground (arith, y) in
      let m = shrunk pos sub rep (length xs) (memory xs spare) in
      let size = length xs - (sub - length rep) in
      (
        drop (suc size) m,
        rw y (
            ap (λ t. (ok, (some t, drop (suc size) m)))
              (take-Parts pos sub size rep xs m h (omega (arith, h, k))
                (shrunk-Parts pos sub rep xs spare h k nz))),
      )
  | inr n ↦
      let longer : sub < length rep = ground (arith, n) in
      elim (Bool-cases (leb (length rep - sub) (length spare))) [
        | inl y ↦
            let fits : length rep - sub ≤ length spare = ground (arith, y) in
            let m = grown pos sub rep (length xs) (memory xs spare) in
            let size = length xs + (length rep - sub) in
            (
              drop (suc size) m,
              rw (n, y)
                  (ap (λ t. (ok, (some t, drop (suc size) m)))
                    (take-Parts pos sub size rep xs m h (omega (arith, longer))
                      (grown-Parts pos sub rep xs spare h longer fits))),
            )
        | inr n2 ↦ (
          (moved true pos sub rep xs spare).1.1,
          rw (n, n2) (moved-replaced pos sub rep xs spare h),
        )
      ]
]

-- `eris_string_replace` in a string without NUL bytes, whatever room its block has, if there is memory
-- for a new block: it returns 0, and the text has the replacement at the first place of the
-- substring, which is not empty and stands in it.
pub replace-replaced :
    (spare xs rep : List ℕ) (y : ℕ) (ys : List ℕ) (pos : ℕ)
    → All (λ x. x ≢ 0) xs
    → IsFirst (y ∷ ys) xs pos
    → (spare' : List ℕ) × (replace true (some xs, spare) (some (y ∷ ys)) (some rep)
        ≡ value (ok, (some (take pos xs ++ (rep ++ drop (pos + length (y ∷ ys)) xs)), spare')))
unfolding replace find
replace-replaced spare xs rep y ys pos nz f =
    let (spare', run) =
      replace_at-replaced pos (length (y ∷ ys)) rep xs spare (IsFirst-inside f) nz in
    let from_start : 0 + pos ≡ pos = omega arith in
    (
      spare',
      ap (on_found true (length (y ∷ ys)) rep xs spare)
            (find_at-first spare xs 0 y ys pos nz f ∙ ap index from_start)
          ∙ ap value run,
    )
