-- ===== src/UrlEncode/Encode.antt =====
-- The three encoding functions.
use erishttp.Common.{
  ℕ, ◌/◌, ◌%◌, ◌&&◌, ◌||◌, Bool, Option, none, some, List, [], ◌∷◌, leb, ◌==◌, if◌then◌else◌,
  get_or, Errno, ok, error,
}
use erishttp.Buffer.{Buffer, contents}
use erishttp.EString.{EString, append_c, append, cleanup}

-- `isalnum` in the "C" locale
abbrev pub is_alnum : ℕ → Bool
is_alnum c =
    (leb b'0' c && leb c b'9') || ((leb b'A' c && leb c b'Z') || (leb b'a' c && leb c b'z'))

-- what stands for itself
abbrev pub is_unreserved : ℕ → Bool
is_unreserved c = is_alnum c || (c == b'.' || (c == b'-' || (c == b'_' || c == b'~')))

-- "0123456789ABCDEF"
abbrev pub hexs : List ℕ
hexs =
    b'0' ∷ b'1' ∷ b'2' ∷ b'3' ∷ b'4' ∷ b'5' ∷ b'6' ∷ b'7' ∷ b'8' ∷ b'9' ∷ b'A' ∷ b'B' ∷ b'C' ∷ b'D'
    ∷ b'E' ∷ b'F' ∷ []

-- `hexs[ 0x0F & (c >> 4)]` and `hexs[ 0x0F & c]`
abbrev pub high_digit : ℕ → ℕ
high_digit c = get_or hexs (c / 16 % 16) 0

abbrev pub low_digit : ℕ → ℕ
low_digit c = get_or hexs (c % 16) 0

-- `encode_tmp`
unfoldable pub encode_tmp : ℕ → List ℕ
encode_tmp c = b'%' ∷ high_digit c ∷ low_digit c ∷ []

unfoldable pub encode_char : Bool → EString → ℕ → Errno × EString
encode_char g es c =
    if c == b' '
    then append_c g es b'+'
    else if is_unreserved c
    then append_c g es c
    else append g es (encode_tmp c)

-- A loop over the input that stops at the first return code but 0, with EERIS_ERROR.
abbrev pub next : {S : Type 0} → Errno × S → (S → Errno × S) → Errno × S
next (ok, s) rest = rest s
next (rc, s) rest = (error, s)

unfoldable pub encode_loop : Bool → EString → List ℕ → Errno × EString
encode_loop g es [] = (ok, es)
encode_loop g es (c ∷ cs) = next (encode_char g es c) (λ es'. encode_loop g es' cs)

-- `*__out_es` before and after; `in_s` is NULL or the `__size` bytes.
unfoldable pub encode : Bool → EString → Option (List ℕ) → Errno × EString
unfolding encode_loop
encode g out none = (error, out)
encode g out (some in_s) = encode_loop g (cleanup out) in_s

unfoldable pub encode_eris : Bool → EString → EString → Errno × EString
unfolding encode_loop
encode_eris g out none = (error, out)
encode_eris g out (some in_s) = encode_loop g (cleanup out) in_s

unfoldable pub encode_buffer : Bool → EString → Option Buffer → Errno × EString
unfolding encode_loop
encode_buffer g out none = (error, out)
encode_buffer g out (some in_buf) = encode_loop g (cleanup out) (contents in_buf)
