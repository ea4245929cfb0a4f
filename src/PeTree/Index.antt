-- ===== src/PeTree/Index.antt =====
-- The digits of an index, printed and read.
use erishttp.Common.{
  ℕ, zero, suc, ◌+◌, ◌-◌, ◌*◌, ◌/◌, ◌≤◌, ◌<◌, ◌^◌, ◌≡◌, refl, false, List, [], ◌∷◌, pos,
  to_int-small, length, min, arith, ◌==◌,
}
use erishttp.PeTree.Parser.{atoi, digits_value}
use erishttp.EString.Decimal.{AreDecimal, value}
use erishttp.EString.Number.{digits, digits-AreDecimal, value-digits}
use erishttp.EString.Reverse.{reversed, length-reversed}

digits_value-value : (v : ℕ) (cs : List ℕ) → AreDecimal cs → digits_value v cs ≡ value v cs
digits_value-value v [] all = refl
digits_value-value v (c ∷ cs) (first, all) =
    rw first (digits_value-value (v * 10 + (c - b'0')) cs all)

length-digits : (n v : ℕ) → length (digits n v) ≤ n
unfolding digits
length-digits zero v = omega arith
length-digits (suc n) v = ground (arith, length-digits n (v / 10))

atoi-decimal : (cs : List ℕ) → AreDecimal cs → value 0 cs < 2 ^ 31 → atoi cs ≡ pos (value 0 cs)
unfolding atoi
atoi-decimal [] all h = refl
atoi-decimal (c ∷ cs) all h =
    let m : (c == b'-') ≡ false = ground (arith, all.0) in
    let p : (c == b'+') ≡ false = ground (arith, all.0) in
    let small : min (value 0 (c ∷ cs)) (2 ^ 63 - 1) ≡ value 0 (c ∷ cs) = omega arith in
    rw (m, p, digits_value-value 0 (c ∷ cs) all, small) (to_int-small (value 0 (c ∷ cs)) h)

pub atoi-digits : (n : ℕ) → n < 2 ^ 31 → atoi (reversed (digits 20 n)) ≡ pos n
atoi-digits n h =
    let same = value-digits 20 n (omega arith) in
    rw (atoi-decimal (reversed (digits 20 n)) (digits-AreDecimal 20 n) (omega (arith, same)), same)
      refl

pub length-index : (n : ℕ) → length (reversed (digits 20 n)) ≤ 31
length-index n = omega (arith, length-reversed (digits 20 n), length-digits 20 n)
