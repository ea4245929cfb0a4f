-- ===== src/UrlEncode/Encoder.antt =====
-- The encoder against the text that each byte stands for.
use erishttp.Common.{
  ℕ, ◌/◌, ◌%◌, ◌<◌, ◌≡◌, refl, ◌∙◌, ap, ◌||◌, Bool, true, false, some, List, [], ◌∷◌, ◌++◌,
  append_assoc, append-nil, ◌==◌, if◌then◌else◌, Bool-cases, inl, inr, arith, All, every_below,
  every_below-at, get_or, ok,
}
use erishttp.EString.{append, cleanup}
use erishttp.EString.Append.{append_c-some}
use erishttp.Buffer.{Buffer, contents}
use erishttp.UrlEncode.{
  is_alnum, is_unreserved, encode_tmp, encode_char, encode_loop, encode, encode_eris, encode_buffer,
  hexs,
}

-- the text for one byte
abbrev pub encoded_char : ℕ → List ℕ
encoded_char c = if c == b' ' then b'+' ∷ [] else if is_unreserved c then c ∷ [] else encode_tmp c

unfoldable pub encoded : List ℕ → List ℕ
encoded [] = []
encoded (c ∷ cs) = encoded_char c ++ encoded cs

append-some : (g : Bool) (xs s : List ℕ) → append g (some xs) s ≡ (ok, some (xs ++ s))
unfolding append
append-some true xs s = refl
append-some false xs s = refl

encode_char-some :
    (g : Bool) (xs : List ℕ) (c : ℕ) → encode_char g (some xs) c ≡ (ok, some (xs ++ encoded_char c))
unfolding encode_char
encode_char-some g xs c = elim (Bool-cases (c == b' ')) [
  | inl y ↦ rw (y, append_c-some) refl
  | inr n ↦ rw n (elim (Bool-cases (is_unreserved c)) [
    | inl u ↦ let z : (c == 0) ≡ false = ground arith in rw (u, append_c-some, z) refl
    | inr w ↦ rw (w, append-some) refl
  ])
]

encode_loop-some :
    (g : Bool) (xs cs : List ℕ) → encode_loop g (some xs) cs ≡ (ok, some (xs ++ encoded cs))
unfolding encode_loop encoded
encode_loop-some g xs [] = rw append-nil refl
encode_loop-some g xs (c ∷ cs) = rw encode_char-some (
    encode_loop-some g (xs ++ encoded_char c) cs
    ∙ ap (λ t. (ok, some t)) (append_assoc xs (encoded_char c) (encoded cs)))

-- The three encoders return 0 and replace the text of an output string that exists by the encoded
-- input, whatever the allocator would answer.
pub encode-encoded :
    (g : Bool) (old s : List ℕ) (b : Buffer)
    → (encode g (some old) (some s) ≡ (ok, some (encoded s)))
      × (encode_eris g (some old) (some s) ≡ (ok, some (encoded s)))
      × (encode_buffer g (some old) (some b) ≡ (ok, some (encoded (contents b))))
unfolding encode encode_eris encode_buffer cleanup
encode-encoded g old s b =
    (encode_loop-some g [] s, encode_loop-some g [] s, encode_loop-some g [] (contents b))

-- what may stand in a form-encoded text
abbrev pub IsSafe : ℕ → Type 0
IsSafe c = (is_unreserved c || (c == b'+' || c == b'%')) ≡ true

All-append : (xs ys : List ℕ) → All IsSafe xs → All IsSafe ys → All IsSafe (xs ++ ys)
All-append [] ys h k = k
All-append (x ∷ xs) ys h k = (h.0, All-append xs ys h.1 k)

hexs_table : every_below 16 (λ k. is_alnum (get_or hexs k 0)) ≡ true
unfolding every_below
hexs_table = refl

encoded_char-IsSafe : (c : ℕ) → All IsSafe (encoded_char c)
unfolding encode_tmp
encoded_char-IsSafe c = elim (Bool-cases (c == b' ')) [
  | inl y ↦ rw y (refl, tt)
  | inr n ↦ rw n (elim (Bool-cases (is_unreserved c)) [
    | inl u ↦ rw u ((rw u refl), tt)
    | inr w ↦
        rw w
          (refl, (digit_safe (c / 16 % 16) (omega arith), (digit_safe (c % 16) (omega arith), tt)))
  ])
]
  where
    digit_safe : (k : ℕ) → k < 16 → IsSafe (get_or hexs k 0)
    digit_safe k h = rw (every_below-at 16 _ h hexs_table) refl

-- Whatever is encoded, the text has only letters, digits, `.`, `-`, `_`, `~`, `+` and `%`.
pub encoded-IsSafe : (s : List ℕ) → All IsSafe (encoded s)
unfolding encoded
encoded-IsSafe [] = tt
encoded-IsSafe (c ∷ cs) =
    All-append (encoded_char c) (encoded cs) (encoded_char-IsSafe c) (encoded-IsSafe cs)
