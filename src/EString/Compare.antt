-- ===== src/EString/Compare.antt =====
-- Comparing strings.
use erishttp.Common.{
  ℕ, ◌≡◌, ◌↔◌, refl, Bool, true, false, some, List, [], ◌∷◌, map, arith, none, ◌≢◌, sym, ◌∙◌,
  Bool-cases, inl, inr,
}
use erishttp.EString.{EString, equal, to_lower, compare_bytes, is_equal}

-- the letter case folded where it is to be ignored
abbrev pub fold : Bool → List ℕ → List ℕ
fold true xs = map to_lower xs
fold false xs = xs

sound : (i : Bool) (xs ys : List ℕ) → compare_bytes i xs ys ≡ equal → fold i xs ≡ fold i ys
sound true [] [] h = refl
sound false [] [] h = refl
sound i [] (y ∷ ys) h = ground arith
sound i (x ∷ xs) [] h = ground arith
sound true (x ∷ xs) (y ∷ ys) h = ground (arith, sound true xs ys)
sound false (x ∷ xs) (y ∷ ys) h = ground (arith, sound false xs ys)

complete : (i : Bool) (xs ys : List ℕ) → fold i xs ≡ fold i ys → compare_bytes i xs ys ≡ equal
complete i [] [] h = refl
complete true [] (y ∷ ys) h = cc
complete false [] (y ∷ ys) h = cc
complete true (x ∷ xs) [] h = cc
complete false (x ∷ xs) [] h = cc
complete true (x ∷ xs) (y ∷ ys) h = ground (arith, complete true xs ys)
complete false (x ∷ xs) (y ∷ ys) h = ground (arith, complete false xs ys)

-- `eris_string_isequal` of two strings that are not NULL holds exactly when they are the same, or
-- the same in lower case where the case is ignored.
pub is_equal_iff :
    (i : Bool) (xs ys : List ℕ) → (is_equal i (some xs) (some ys) ≡ true) ↔ (fold i xs ≡ fold i ys)
unfolding is_equal
is_equal_iff i xs ys = (λ h. sound i xs ys (ground arith), λ h. rw (complete i xs ys h, is_equal))

-- a string that is equal to one text is not equal to a different one
pub is_equal_other :
    (i : Bool) (es : EString) (key other : List ℕ)
    → is_equal i es (some key) ≡ true
    → fold i other ≢ fold i key
    → is_equal i es (some other) ≡ false
unfolding is_equal
is_equal_other i none key other h ne = refl
is_equal_other i (some xs) key other h ne = elim (Bool-cases (is_equal i (some xs) (some other))) [
  | inr no_match ↦ no_match
  | inl y ↦ absurd (ne (sym ((is_equal_iff i xs other).0 y) ∙ (is_equal_iff i xs key).0 h))
]
