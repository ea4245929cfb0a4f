-- ===== src/EString/Tests.antt =====
-- The theorems on strings at concrete texts.
use erishttp.Common.{arith, ◌≡◌, refl, true, some, codes, ok, false, ◌^◌, ◌-◌, inr}
use erishttp.EString.Rotation.{rotation, rotation-rotated}
use erishttp.EString.Reverse.{reverse_loop}
use erishttp.EString.{is_equal}
use erishttp.EString.Hex.{hextov, hextov_loop, next_digit, nonzero_digit}
use erishttp.EString.Decimal.{atol}
use erishttp.EString.Reverse.{reversed}
use erishttp.EString.Number.{digits}
use erishttp.EString.Signed.{ltoa, signed_digits, negative_digits, atol-ltoa}
use erishttp.EString.Strip.{strip, lstrip, rstrip, strip-padded}
use mathlib.Core.Option.{map as option_map}

is_equal_runs : is_equal true (some (codes "GeT")) (some (codes "GET")) ≡ true
unfolding is_equal
is_equal_runs = refl

-- The value of "100" should be 256.
hextov_runs : hextov (some (codes "100")) ≡ 4096
unfolding hextov hextov_loop next_digit nonzero_digit
hextov_runs = refl

reverse_runs : option_map reversed (some (codes "abc")) ≡ some (codes "cba")
reverse_runs = refl

digits_runs : digits 20 1024 ≡ codes "4201"
unfolding digits
digits_runs = refl

-- -12
ltoa_runs : signed_digits (2 ^ 64 - 12) ≡ codes "21-"
unfolding signed_digits digits
ltoa_runs = refl

-- The text of the smallest `long` should be "-9223372036854775808".
ltoa_least_runs : reversed (signed_digits (2 ^ 63)) ≡ codes "-'..--).0-*(+,))+(0("
unfolding signed_digits negative_digits
ltoa_least_runs = refl

atol-ltoa_example :
    ((ltoa false (some (codes "old")) (2 ^ 64 - 12)).0 ≡ ok)
    × (atol (ltoa false (some (codes "old")) (2 ^ 64 - 12)).1 ≡ 2 ^ 64 - 12)
atol-ltoa_example =
    atol-ltoa false (some (codes "old")) (2 ^ 64 - 12) (omega arith) (λ h. omega arith)
      (inr (λ h. cc))

strip_runs : strip (some (codes "  a b ")) ≡ some (codes "a b")
unfolding strip lstrip rstrip
strip_runs = refl

strip-padded_example : strip (some (codes "  a b ")) ≡ some (codes "a b")
strip-padded_example =
    strip-padded (codes "  ") (codes "a b") (codes " ") (refl, (refl, tt)) (refl, tt)
      ((λ h. omega arith), ((λ h. omega arith), ((λ h. omega arith), tt))) refl refl

rotation_runs : rotation (some (codes "abcde")) 2 ≡ some (codes "cdeab")
unfolding rotation reverse_loop
rotation_runs = refl

rotation-rotated_example : rotation (some (codes "abcde")) 0 ≡ some (codes "bcdea")
rotation-rotated_example = rotation-rotated (codes "abcde") 0
