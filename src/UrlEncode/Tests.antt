-- ===== src/UrlEncode/Tests.antt =====
-- Runs of the coder, and the theorems at concrete texts.
use erishttp.Common.{
  ℕ, ◌≡◌, refl, true, false, some, none, List, [], ◌∷◌, arith, codes, AreBytes, if◌then◌else◌, ok,
  error,
}
use erishttp.Buffer.{Buffer, contents}
use erishttp.Buffer.Inv.{IsValid}
use erishttp.EString.{append, append_c, cleanup}
use erishttp.EString.Append.{without_nul}
use erishttp.UrlEncode.{
  encode_char, encode_tmp, on_literal, on_percent, encode, decode, decode_eris, decode_buffer,
}
use erishttp.UrlEncode.Spec.{decoded}
use erishttp.UrlEncode.RoundTrip.{decode_buffer-encode, decode-decoded}

abbrev small : Buffer
small = record { alloc = 4; size = 0; block = some (0 ∷ 0 ∷ 0 ∷ 0 ∷ []) }

small-IsValid : IsValid small
small-IsValid = omega arith

-- "a b", a NUL, and "é" in Latin-1
abbrev sample : List ℕ
sample = b'a' ∷ b' ' ∷ b'b' ∷ 0 ∷ 233 ∷ []

sample-AreBytes : AreBytes sample
sample-AreBytes = omega arith

encode_runs : encode true none (some sample) ≡ (ok, some (codes "a+b%00%E9"))
unfolding encode encode_char append_c append encode_tmp cleanup
encode_runs = refl

decode_bad : decode true none (some (codes "ab%4")) ≡ (ok, some (codes "ab"))
unfolding decode append_c on_literal on_percent cleanup
decode_bad = refl

decode_buffer-encode_example :
    let (rc, e) = encode false (some []) (some sample) in
    let (rc', b) = decode_buffer (some 99) small e in
    (rc ≡ ok) × (rc' ≡ ok) × (contents b ≡ sample) × IsValid b
decode_buffer-encode_example =
    decode_buffer-encode false 99 [] sample sample-AreBytes small-IsValid (omega arith)

decode-decoded_example :
    (decode false (some []) (some (codes "1%zz")) ≡ (
      (if (decoded (codes "1%zz")).1 then ok else error),
      some (without_nul (decoded (codes "1%zz")).0),
    ))
    × (decode_eris false (some []) (some (codes "1%zz")) ≡ (
      (if (decoded (codes "1%zz")).1 then ok else error),
      some (without_nul (decoded (codes "1%zz")).0),
    ))
decode-decoded_example = decode-decoded false [] (codes "1%zz")
