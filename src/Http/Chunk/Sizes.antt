-- ===== src/Http/Chunk/Sizes.antt =====
-- The size of a chunk, as `eris_string_hextov` of src/core/eris.string.c reads it.
use erishttp.Common.{
  ℕ, ◌+◌, ◌*◌, ◌≤◌, ◌<◌, ◌≡◌, ◌⊎◌, inl, inr, refl, ◌∙◌, ap, true, false, Option, some, List, [],
  ◌∷◌, arith, All, ◌==◌, Bool-cases,
}
use erishttp.EString.Hex.{Scale, nonzero_digit, next_digit, hextov_loop, hextov, next_digit-some}
use erishttp.UrlEncode.{is_hex}
use erishttp.UrlEncode.Spec.{digit}

-- a number in hexadecimal digits, behind the digits that gave `n`
abbrev pub hex_value : ℕ → List ℕ → ℕ
hex_value n [] = n
hex_value n (d ∷ ds) = hex_value (n * 16 + digit d) ds

hex_value-le : (n : ℕ) (ds : List ℕ) → n ≤ hex_value n ds
hex_value-le n [] = omega arith
hex_value-le n (d ∷ ds) = omega (arith, hex_value-le (n * 16 + digit d) ds)

-- the two kinds of digits, which the code takes apart
hex-cases :
    (c : ℕ)
    → is_hex c ≡ true
    → (c ≡ b'0') ⊎ ((nonzero_digit c ≡ some (digit c)) × (0 < digit c) × (digit c < 16))
unfolding nonzero_digit
hex-cases c h = elim (Bool-cases (c == b'0')) [
  | inl zero_digit ↦ inl (ground arith)
  | inr other ↦ inr (ground arith, ground arith, ground arith)
]

both : {a b c d : ℕ} → a ≡ c → b ≡ d → Path (Option Scale) (some (a, b)) (some (c, d))
both p q = rw (p, q) refl

-- 0 in front leaves the state
leading_zero : (i : ℕ) → next_digit i b'0' (1, 0) ≡ some (1, 0)
unfolding next_digit nonzero_digit
leading_zero i = elim (Bool-cases (i == 0)) [ inl z ↦ rw z refl | inr nz ↦ rw nz refl ]

first_digit :
    (i c : ℕ)
    → nonzero_digit c ≡ some (digit c)
    → digit c < 16
    → next_digit i c (1, 0) ≡ some (16, 0 + digit c)
first_digit i c is less = next_digit-some i c (1, 0) is ∙ both (omega arith) (omega arith)

-- a digit behind a first one that is not 0
second_digit :
    (i c x : ℕ)
    → is_hex c ≡ true
    → x < 16
    → 0 < x
    → next_digit (i + 1) c (16, x) ≡ some (256, x * 16 + digit c)
unfolding next_digit nonzero_digit
second_digit i c x h small pos = elim (hex-cases c h) [
  | inl zero_digit ↦
      let later : (i + 1 == 0) ≡ false = ground arith in
      let some_value : (x == 0) ≡ false = ground arith in
      rw (zero_digit, later, some_value) (both (omega arith) (omega arith))
  | inr (is, more, less) ↦ next_digit-some (i + 1) c (16, x) is ∙ both (omega arith) (omega arith)
]

-- behind a first digit that is not 0 there is room for one more
behind_first :
    (i x : ℕ) (ds : List ℕ)
    → All (λ d. is_hex d ≡ true) ds
    → hex_value x ds < 256
    → 0 < x
    → x < 16
    → hextov_loop (i + 1) (16, x) ds ≡ hex_value x ds
unfolding hextov_loop
behind_first i x [] all small more less = refl
behind_first i x (e ∷ []) (h, all) small more less = rw (second_digit i e x h less more) refl
behind_first i x (e ∷ f ∷ fs) all small more less =
    absurd (omega (arith, hex_value-le ((x * 16 + digit e) * 16 + digit f) fs))

hextov_loop-value :
    (i : ℕ) (ds : List ℕ)
    → All (λ d. is_hex d ≡ true) ds
    → hex_value 0 ds < 256
    → hextov_loop i (1, 0) ds ≡ hex_value 0 ds
unfolding hextov_loop
hextov_loop-value i [] all small = refl
hextov_loop-value i (d ∷ ds) (h, all) small = elim (hex-cases d h) [
  | inl zero_digit ↦
      rw (zero_digit, leading_zero i)
        (hextov_loop-value (i + 1) ds all
          (rw (← ap (λ x. hex_value (0 + digit x) ds) zero_digit) small))
  | inr (is, more, less) ↦
      rw (first_digit i d is less)
        (behind_first i (0 + digit d) ds all small (omega arith) (omega arith))
]

-- `eris_string_hextov` of hexadecimal digits of a number below 256, with 0 in front or not, gives this
-- number.
pub hextov-hex_value :
    (ds : List ℕ)
    → All (λ d. is_hex d ≡ true) ds
    → hex_value 0 ds < 256
    → hextov (some ds) ≡ hex_value 0 ds
unfolding hextov
hextov-hex_value ds all small = hextov_loop-value 0 ds all small
