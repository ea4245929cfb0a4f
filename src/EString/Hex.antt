-- ===== src/EString/Hex.antt =====
-- `eris_string_hextov`: a number from hexadecimal digits.
use erishttp.Common.{
  ℕ, ◌+◌, ◌-◌, ◌*◌, ◌%◌, ◌^◌, ◌<◌, ◌≡◌, ap, ◌&&◌, ◌||◌, not, Option, none, some, List, [], ◌∷◌, leb,
  ◌==◌, if◌then◌else◌, arith,
}
use erishttp.EString.{EString}

-- the values of the digits from '1' to 'f'
unfoldable pub nonzero_digit : ℕ → Option ℕ
nonzero_digit c =
    if leb b'1' c && leb c b'9'
    then some (c - b'0')
    else if leb b'a' c && leb c b'f'
    then some (c - b'a' + 10)
    else if leb b'A' c && leb c b'F'
    then some (c - b'A' + 10)
    else none

-- `base` and `rc_v`
abbrev pub Scale : Type 0
Scale = ℕ × ℕ

abbrev shifted : ℕ → Scale → Scale
shifted d (base, v) = (base * 16 % 2 ^ 64, (v * base + d) % 2 ^ 64)

-- the cases that are not a digit from '1' to 'f'; `none` ends the conversion
abbrev other_char : ℕ → ℕ → Scale → Option Scale
other_char i c (base, v) =
    if c == b'0'
    then some (if not (i == 0) && not (v == 0) then shifted 0 (base, v) else (base, v))
    else if c == b'x' || c == b'X'
    then (if i == 1 then some (base, v) else none)
    else none

-- the `switch` for the character `c` at place `i`
unfoldable pub next_digit : ℕ → ℕ → Scale → Option Scale
next_digit i c s = elim (nonzero_digit c) [ some d ↦ some (shifted d s) | none ↦ other_char i c s ]

abbrev pub continue : Option Scale → ℕ → (Scale → ℕ) → ℕ
continue (some s) v rest = rest s
continue none v rest = v

unfoldable pub hextov_loop : ℕ → Scale → List ℕ → ℕ
hextov_loop i s [] = s.1
hextov_loop i s (c ∷ cs) = continue (next_digit i c s) s.1 (λ t. hextov_loop (i + 1) t cs)

unfoldable pub hextov : EString → ℕ
unfolding hextov_loop
hextov none = 0
hextov (some cs) = hextov_loop 0 (1, 0) cs

pub next_digit-some :
    (i c : ℕ) (s : Scale) {d : ℕ} → nonzero_digit c ≡ some d → next_digit i c s ≡ some (shifted d s)
unfolding next_digit
next_digit-some i c s h =
    ap (λ (o : Option ℕ). elim o [ some d ↦ some (shifted d s) | none ↦ other_char i c s ]) h

nonzero_digit-lt : (c : ℕ) {d : ℕ} → nonzero_digit c ≡ some d → d < 16
unfolding nonzero_digit
nonzero_digit-lt c h = ground arith

-- `eris_string_hextov` of one, two and three hexadecimal digits that are not 0: with one and with two
-- the value is right, with three the first two digits are moved by 256 instead of 16.
pub hextov-digits :
    (a b c : ℕ) {x y z : ℕ}
    → nonzero_digit a ≡ some x
    → nonzero_digit b ≡ some y
    → nonzero_digit c ≡ some z
    → (hextov (some (a ∷ [])) ≡ x)
      × (hextov (some (a ∷ b ∷ [])) ≡ x * 16 + y)
      × (hextov (some (a ∷ b ∷ c ∷ [])) ≡ (x * 16 + y) * 256 + z)
unfolding hextov hextov_loop
hextov-digits a b c {x} {y} {z} ha hb hc =
    let la = nonzero_digit-lt a ha in
    let lb = nonzero_digit-lt b hb in
    let lc = nonzero_digit-lt c hc in
    (
      rw (next_digit-some 0 a (1, 0) ha) (omega arith),
      rw (next_digit-some 0 a (1, 0) ha, next_digit-some 1 b _ hb) (omega arith),
      rw (next_digit-some 0 a (1, 0) ha, next_digit-some 1 b _ hb, next_digit-some 2 c _ hc)
          (omega arith),
    )
