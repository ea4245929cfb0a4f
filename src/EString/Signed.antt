-- ===== src/EString/Signed.antt =====
-- `eris_string_ltoa` and `eris_string_lltoa`: the decimal digits of a signed number of 8 bytes, which
-- is given as its bits, so that -1 is 2^64 - 1.
use erishttp.Common.{
  ℕ, zero, suc, ◌-◌, ◌/◌, ◌%◌, ◌^◌, ◌<◌, ◌≡◌, ◌≢◌, ◌⊎◌, inl, inr, ◌∙◌, refl, Bool, true, false,
  Bool-cases, none, some, List, [], ◌∷◌, ◌++◌, leb, ◌==◌, if◌then◌else◌, arith, Errno, ok,
}
use erishttp.EString.{EString, cleanup, append}
use erishttp.EString.Reverse.{reversed, reverse-reversed}
use erishttp.EString.Decimal.{atol, atol_loop-value, negated}
use erishttp.EString.Number.{digits, digits-AreDecimal, value-digits, write_digits, atol-digits}

-- whether the bits of a `long` stand for a negative number
abbrev pub is_negative : ℕ → Bool
is_negative w = leb (2 ^ 63) w

-- The loop on a number that is still negative after its sign was turned: the remainders of a
-- negative number are negative.
unfoldable pub negative_digits : ℕ → ℕ → List ℕ
negative_digits zero m = []
negative_digits (suc n) m =
    let rest = negative_digits n (m / 10) in (b'0' - m % 10) ∷ (if m / 10 == 0 then [] else rest)

-- what the loop and the sign leave in `buf`, the last digit first
unfoldable pub signed_digits : ℕ → List ℕ
unfolding digits negative_digits
signed_digits w =
    let m = if is_negative w then negated w else w in
    let ds = if is_negative m then negative_digits 20 (negated m) else digits 20 m in
    if is_negative w then ds ++ (b'-' ∷ []) else ds

-- The allocation is as in `ultoa`.
unfoldable pub ltoa : Bool → EString → ℕ → Errno × EString
unfolding signed_digits
ltoa false none w = (ok, none)
ltoa true none w = write_digits (some []) (signed_digits w)
ltoa granted (some xs) w = write_digits (some xs) (signed_digits w)

reversed-snoc : (xs : List ℕ) (y : ℕ) → reversed (xs ++ (y ∷ [])) ≡ y ∷ reversed xs
reversed-snoc [] y = refl
reversed-snoc (x ∷ xs) y = rw (reversed-snoc xs y) refl

atol-negative : (m : ℕ) → m < 2 ^ 63 → atol (some (b'-' ∷ reversed (digits 20 m))) ≡ negated m
unfolding atol
atol-negative m h =
    let same = value-digits 20 m (omega arith) in
    rw
      (
        atol_loop-value 0 (reversed (digits 20 m)) (digits-AreDecimal 20 m) (omega (arith, same)),
        same,
      )
      refl

atol-signed_digits :
    (w : ℕ) → w < 2 ^ 64 → w ≢ 2 ^ 63 → atol (some (reversed (signed_digits w))) ≡ w
unfolding signed_digits
atol-signed_digits w h other = elim (Bool-cases (is_negative w)) [
  | inl k ↦
      let large : 2 ^ 63 < w = ground arith in
      let turned : negated w ≡ 2 ^ 64 - w = omega arith in
      let small : negated w < 2 ^ 63 = omega arith in
      let q : is_negative (negated w) ≡ false = ground arith in
      let back : negated (negated w) ≡ w = omega arith in
      rw (k, q, reversed-snoc (digits 20 (negated w)) b'-') (atol-negative (negated w) small ∙ back)
  | inr k ↦
      let same = value-digits 20 w (ground arith) in
      rw (k, k)
        (atol-digits (reversed (digits 20 w)) (digits-AreDecimal 20 w) (ground (arith, same))
          ∙ same)
]

written-signed :
    (xs : List ℕ) (w : ℕ)
    → w < 2 ^ 64
    → w ≢ 2 ^ 63
    → ((write_digits (some xs) (signed_digits w)).0 ≡ ok)
      × (atol (write_digits (some xs) (signed_digits w)).1 ≡ w)
unfolding append cleanup
written-signed xs w h other =
    (refl, rw (reverse-reversed (some (signed_digits w))) (atol-signed_digits w h other))

-- Unless a NULL string cannot be allocated, `eris_string_ltoa` of a number other than the smallest
-- `long` returns 0 and writes a text from which `eris_string_atol` reads the number, whatever was
-- in the string.
pub atol-ltoa :
    (granted : Bool) (es : EString) (w : ℕ)
    → w < 2 ^ 64
    → w ≢ 2 ^ 63
    → (granted ≡ true) ⊎ (es ≢ none)
    → ((ltoa granted es w).0 ≡ ok) × (atol (ltoa granted es w).1 ≡ w)
unfolding ltoa
atol-ltoa true none w h other g = written-signed [] w h other
atol-ltoa false none w h other (inl g) = absurd (ground arith)
atol-ltoa false none w h other (inr g) = absurd (g refl)
atol-ltoa granted (some xs) w h other g = written-signed xs w h other
