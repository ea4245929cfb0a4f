-- ===== src/EString/Replace/Tests.antt =====
-- Replacements in concrete texts.
use erishttp.Common.{
  ℕ, zero, suc, ◌<◌, ◌≡◌, refl, true, false, some, List, [], ◌∷◌, codes, arith, ok, drop,
}
use erishttp.EString.Find.Places.{IsFirst, is_prefix}
use erishttp.EString.Split.{value}
use erishttp.EString.Replace.{replace}
use erishttp.EString.Replace.Replaced.{replace-replaced}

cd-IsFirst : IsFirst (codes "cd") (codes "acde") 1
cd-IsFirst = record { here = refl; not_before = before }
  where
    before : (k : ℕ) → k < 1 → is_prefix (codes "cd") (drop k (codes "acde")) ≡ false
    before zero lt = refl
    before (suc k) lt = absurd (omega arith)

replace-replaced_example :
    (spare' : List ℕ) × (replace true
        (some (codes "acde"), 7 ∷ [])
        (some (codes "cd"))
        (some (codes "xyz"))
      ≡ value (ok, (some (codes "axyze"), spare')))
replace-replaced_example =
    replace-replaced (7 ∷ []) (codes "acde") (codes "xyz") b'c' (codes "d") 1
      ((λ h. omega arith), ((λ h. omega arith), ((λ h. omega arith), ((λ h. omega arith), tt))))
      cd-IsFirst
