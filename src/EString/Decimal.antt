-- ===== src/EString/Decimal.antt =====
-- `eris_string_atol`: a signed number from decimal digits.
use erishttp.Common.{
  ℕ, ◌+◌, ◌-◌, ◌*◌, ◌%◌, ◌^◌, ◌≤◌, ◌<◌, ◌≡◌, refl, ◌&&◌, Bool, true, false, none, some, List, [],
  ◌∷◌, leb, ◌==◌, if◌then◌else◌, arith, All,
}
use erishttp.EString.{EString}

abbrev pub is_decimal : ℕ → Bool
is_decimal c = leb b'0' c && leb c b'9'

-- The largest `long`, of 8 bytes.
abbrev pub long_max : ℕ
long_max = 2 ^ 63 - 1

-- The loop over the digits. A sum that is negative as a `long` ends it with the largest value.
unfoldable pub atol_loop : ℕ → List ℕ → ℕ
atol_loop v [] = v
atol_loop v (c ∷ cs) =
    let w = (v * 10 + (c - b'0')) % 2 ^ 64 in
    let rest = atol_loop w cs in
    if is_decimal c then (if leb (2 ^ 63) w then long_max else rest) else v

-- the value as the bits of a `long`, so that -1 is 2^64 - 1
abbrev pub negated : ℕ → ℕ
negated v = (2 ^ 64 - v) % 2 ^ 64

unfoldable pub atol : EString → ℕ
unfolding atol_loop
atol none = 0
atol (some []) = 0
atol (some (c ∷ cs)) =
    let v = atol_loop 0 cs in
    if c == b'-' then negated v else if c == b'+' then v else atol_loop 0 (c ∷ cs)

-- the number that digits stand for
abbrev pub value : ℕ → List ℕ → ℕ
value v [] = v
value v (c ∷ cs) = value (v * 10 + (c - b'0')) cs

abbrev pub AreDecimal : List ℕ → Type 0
AreDecimal cs = All (λ c. is_decimal c ≡ true) cs

value_mono : (v : ℕ) (cs : List ℕ) → v ≤ value v cs
value_mono v [] = omega arith
value_mono v (c ∷ cs) = omega (arith, value_mono (v * 10 + (c - b'0')) cs)

pub atol_loop-value :
    (v : ℕ) (cs : List ℕ) → AreDecimal cs → value v cs < 2 ^ 63 → atol_loop v cs ≡ value v cs
unfolding atol_loop
atol_loop-value v [] all h = refl
atol_loop-value v (c ∷ cs) (digit, all) h =
    let m = value_mono (v * 10 + (c - b'0')) cs in
    let w : (v * 10 + (c - b'0')) % 2 ^ 64 ≡ v * 10 + (c - b'0') = omega (arith, m) in
    let small : leb (2 ^ 63) (v * 10 + (c - b'0')) ≡ false = ground (arith, m) in
    rw (digit, w, small) (atol_loop-value (v * 10 + (c - b'0')) cs all h)

-- `eris_string_atol` of decimal digits whose number is below 2^63 is that number.
pub atol-value :
    (c : ℕ) (cs : List ℕ)
    → AreDecimal (c ∷ cs)
    → value 0 (c ∷ cs) < 2 ^ 63
    → atol (some (c ∷ cs)) ≡ value 0 (c ∷ cs)
unfolding atol
atol-value c cs all h =
    let m : (c == b'-') ≡ false = ground (arith, all.0) in
    let p : (c == b'+') ≡ false = ground (arith, all.0) in
    rw (m, p) (atol_loop-value 0 (c ∷ cs) all h)
