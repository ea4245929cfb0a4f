-- ===== src/EString/Find/Tests.antt =====
-- Searches at concrete texts.
use erishttp.Common.{ℕ, zero, suc, ◌<◌, ◌≡◌, refl, false, some, [], ◌∷◌, codes, arith, drop}
use erishttp.EString.Find.{index, npos, overrun, find, find_at, find_loop, compare_loop, skip_loop}
use erishttp.EString.Find.Places.{IsFirst, is_prefix}
use erishttp.EString.Find.First.{find_at-first}
use erishttp.EString.Find.Absent.{find_at-absent, find-overrun}

-- after two false starts
find_runs : find [] (some (codes "xaabaac")) (some (codes "aac")) ≡ index 4
unfolding find find_at find_loop compare_loop skip_loop
find_runs = refl

aac-IsFirst : IsFirst (codes "aac") (drop 1 (codes "xaabaac")) 3
aac-IsFirst = record { here = refl; not_before = before }
  where
    before : (k : ℕ) → k < 3 → is_prefix (codes "aac") (drop k (codes "aabaac")) ≡ false
    before zero lt = refl
    before (suc zero) lt = refl
    before (suc (suc zero)) lt = refl
    before (suc (suc (suc k))) lt = absurd (omega arith)

find_at-first_example : find_at (7 ∷ []) (some (codes "xaabaac")) 1 (some (codes "aac")) ≡ index 4
find_at-first_example =
    find_at-first (7 ∷ []) (codes "xaabaac") 1 b'a' (codes "ac") 3
      (
        (λ h. omega arith),
        (
          (λ h. omega arith),
          (
            (λ h. omega arith),
            (
              (λ h. omega arith),
              ((λ h. omega arith), ((λ h. omega arith), ((λ h. omega arith), tt))),
            ),
          ),
        ),
      )
      aac-IsFirst

find_at-absent_example : find_at (b'=' ∷ []) (some (codes "=ab")) 1 (some (codes "=")) ≡ npos
find_at-absent_example =
    find_at-absent (b'=' ∷ []) (codes "=ab") 1 b'='
      ((λ h. omega arith), ((λ h. omega arith), ((λ h. omega arith), tt)))
      ((λ h. omega arith), ((λ h. omega arith), tt))

find-overrun_example : find [] (some (codes "text/j")) (some (codes "json")) ≡ overrun
find-overrun_example =
    find-overrun (codes "text/") b'j' b's' (codes "on") (λ h. omega arith) (λ h. omega arith)
      (
        (λ h. omega arith),
        ((λ h. omega arith), ((λ h. omega arith), ((λ h. omega arith), ((λ h. omega arith), tt)))),
      )
      (
        (λ h. omega arith),
        ((λ h. omega arith), ((λ h. omega arith), ((λ h. omega arith), ((λ h. omega arith), tt)))),
      )
