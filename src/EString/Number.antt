-- ===== src/EString/Number.antt =====
-- `eris_string_ultoa` and `eris_string_ulltoa`: the decimal digits of a number, of 8 bytes.
use erishttp.Common.{
  ℕ, zero, suc, ◌+◌, ◌-◌, ◌*◌, ◌/◌, ◌%◌, ◌^◌, ◌<◌, ◌≡◌, ◌∙◌, refl, true, false, none, some, List,
  [], ◌∷◌, ◌++◌, ◌==◌, if◌then◌else◌, arith, Errno, ok, is_ok, Bool, false, Bool-cases, inl, inr,
  ◌⊎◌, ◌≢◌,
}
use erishttp.EString.{EString, cleanup, append}
use erishttp.EString.Reverse.{reverse, reversed, reverse-reversed}
use erishttp.EString.Decimal.{atol, atol-value, value, AreDecimal, is_decimal}

-- The loop over the number, its last digit first. The fuel bounds the digits.
unfoldable pub digits : ℕ → ℕ → List ℕ
digits zero v = []
digits (suc n) v =
    let rest = digits n (v / 10) in (b'0' + v % 10) ∷ (if v / 10 == 0 then [] else rest)

-- what is done once there is a string to write to
abbrev pub write_digits : EString → List ℕ → Errno × EString
write_digits es ds =
    let appended = append true (cleanup es) ds in
    if is_ok appended.0 then (appended.0, reverse appended.1) else appended

-- `granted` is the allocator's answer, for a NULL string only; when it refuses, the call does
-- nothing and returns 0. The digits of a number below 2^64 are 20 at most and fit in `buf`.
unfoldable pub ultoa : Bool → EString → ℕ → Errno × EString
unfolding digits
ultoa false none v = (ok, none)
ultoa true none v = write_digits (some []) (digits 20 v)
ultoa granted (some xs) v = write_digits (some xs) (digits 20 v)

value-snoc : (v d : ℕ) (cs : List ℕ) → value v (cs ++ (d ∷ [])) ≡ value v cs * 10 + (d - b'0')
value-snoc v d [] = refl
value-snoc v d (c ∷ cs) = value-snoc (v * 10 + (c - b'0')) d cs

AreDecimal-snoc :
    (cs : List ℕ) (d : ℕ) → AreDecimal cs → is_decimal d ≡ true → AreDecimal (cs ++ (d ∷ []))
AreDecimal-snoc [] d all h = (h, tt)
AreDecimal-snoc (c ∷ cs) d (first, all) h = (first, AreDecimal-snoc cs d all h)

digit-is_decimal : (v : ℕ) → is_decimal (b'0' + v % 10) ≡ true
digit-is_decimal v = ground arith

pub digits-AreDecimal : (n v : ℕ) → AreDecimal (reversed (digits n v))
unfolding digits
digits-AreDecimal zero v = tt
digits-AreDecimal (suc n) v = elim (Bool-cases (v / 10 == 0)) [
  | inl k ↦ rw k (digit-is_decimal v, tt)
  | inr k ↦ rw k (
      AreDecimal-snoc (reversed (digits n (v / 10))) (b'0' + v % 10) (digits-AreDecimal n (v / 10))
        (digit-is_decimal v))
]

pub value-digits : (n v : ℕ) → v < 10 ^ n → value 0 (reversed (digits n v)) ≡ v
unfolding digits
value-digits zero v h = omega arith
value-digits (suc n) v h =
    let last : (b'0' + v % 10) - b'0' ≡ v % 10 = omega arith in
    let ih : value 0 (reversed (digits n (v / 10))) ≡ v / 10 =
      value-digits n (v / 10) (omega arith) in
    elim (Bool-cases (v / 10 == 0)) [
      | inl k ↦ rw (k, last) (ground arith)
      | inr k ↦
          rw (k, value-snoc 0 (b'0' + v % 10) (reversed (digits n (v / 10))), ih, last)
            (omega arith)
    ]

pub atol-digits : (cs : List ℕ) → AreDecimal cs → value 0 cs < 2 ^ 63 → atol (some cs) ≡ value 0 cs
unfolding atol
atol-digits [] all h = refl
atol-digits (c ∷ cs) all h = atol-value c cs all h

written-atol :
    (xs : List ℕ) (v : ℕ)
    → v < 2 ^ 63
    → ((write_digits (some xs) (digits 20 v)).0 ≡ ok)
      × (atol (write_digits (some xs) (digits 20 v)).1 ≡ v)
unfolding append cleanup
written-atol xs v h =
    let same = value-digits 20 v (omega arith) in
    (
      refl,
      rw (reverse-reversed (some (digits 20 v))) (
          atol-digits (reversed (digits 20 v)) (digits-AreDecimal 20 v) (omega (arith, same))
          ∙ same),
    )

-- Unless a NULL string cannot be allocated, `eris_string_ultoa` of a number below 2^63 returns 0
-- and writes a text from which `eris_string_atol` reads the number, whatever was in the string.
pub atol-ultoa :
    (granted : Bool) (es : EString) (v : ℕ)
    → v < 2 ^ 63
    → (granted ≡ true) ⊎ (es ≢ none)
    → ((ultoa granted es v).0 ≡ ok) × (atol (ultoa granted es v).1 ≡ v)
unfolding ultoa
atol-ultoa true none v h g = written-atol [] v h
atol-ultoa false none v h (inl g) = absurd (ground arith)
atol-ultoa false none v h (inr g) = absurd (g refl)
atol-ultoa granted (some xs) v h g = written-atol xs v h
