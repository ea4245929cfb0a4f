-- ===== src/EString/Split/Tests.antt =====
-- A split of a concrete text.
use erishttp.Common.{◌≡◌, refl, true, some, [], ◌∷◌, codes, arith}
use erishttp.EString.Split.{value, split_eris}
use erishttp.EString.Split.Fields.{split_eris-kept}

split_eris-kept_example :
    split_eris (λ i. true) true (λ i. true) [] (some (codes "ab,,c,d")) (codes ",")
    ≡ value (some (some (codes "ab") ∷ some (codes "c") ∷ []))
split_eris-kept_example =
    split_eris-kept (λ i. true) (λ i. true) [] (codes "ab,,c,d") b',' (λ i. refl) (λ i. refl)
      (
        (λ h. omega arith),
        (
          (λ h. omega arith),
          (
            (λ h. omega arith),
            (
              (λ h. omega arith),
              ((λ h. omega arith), ((λ h. omega arith), ((λ h. omega arith), tt))),
            ),
          ),
        ),
      )
