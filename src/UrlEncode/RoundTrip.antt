-- ===== src/UrlEncode/RoundTrip.antt =====
-- Decoding what was encoded.
use erishttp.Common.{
  ℕ, ◌+◌, ◌*◌, ◌^◌, ◌≤◌, ◌<◌, ◌≡◌, refl, sym, ◌∙◌, ap, ◌&&◌, Bool, true, false, some, List, [], ◌∷◌,
  ◌++◌, append_assoc, append-nil, ◌==◌, if◌then◌else◌, Bool-cases, inl, inr, arith, AreBytes,
  length, every_below, every_below-at, Errno, ok, error, ==_iff,
}
use erishttp.EString.{append_c, cleanup}
use erishttp.EString.Append.{append_c-some, without_nul}
use erishttp.Buffer
use erishttp.Buffer.{Buffer, contents}
use erishttp.Buffer.Inv.{IsValid, cleanup-IsValid}
use erishttp.Buffer.Append.{append_c-Outcome, alloc-append_c}
use erishttp.UrlEncode.{
  is_unreserved, is_hex, high_digit, low_digit, encode_tmp, encode, decode_loop, start, decode,
  decode_eris, decode_buffer, start_mode, next,
}
use erishttp.UrlEncode.Spec.{digit, onto, literal, decoded, feed, finish}
use erishttp.UrlEncode.Encoder.{encoded_char, encoded, encode-encoded}
use erishttp.UrlEncode.Decoder.{decode_loop-decoded}

hex_table :
    every_below 256 (λ c.
      (is_hex (high_digit c) && is_hex (low_digit c))
      && (digit (high_digit c) * 16 + digit (low_digit c) == c))
    ≡ true
unfolding every_below
hex_table = refl

decoded-literal :
    (c : ℕ) (cs : List ℕ) → (c == b'%') ≡ false → decoded (c ∷ cs) ≡ onto (literal c) (decoded cs)
unfolding decoded
decoded-literal c [] h = rw h refl
decoded-literal c (x ∷ []) h = rw h refl
decoded-literal c (x ∷ y ∷ cs) h = rw h refl

decoded-escape :
    (c : ℕ) (cs : List ℕ) → c < 256 → decoded (encode_tmp c ++ cs) ≡ onto c (decoded cs)
unfolding decoded encode_tmp
decoded-escape c cs lt =
    let row = every_below-at 256 _ lt hex_table in
    let (hex, value) = both (is_hex (high_digit c) && is_hex (low_digit c)) _ row in
    rw (hex, (==_iff _ _).0 value) refl
  where
    both : (a b : Bool) → (a && b) ≡ true → (a ≡ true) × (b ≡ true)
    both a b h = ground arith

decoded-char :
    (c : ℕ) (cs : List ℕ) → c < 256 → decoded (encoded_char c ++ cs) ≡ onto c (decoded cs)
decoded-char c cs lt = elim (Bool-cases (c == b' ')) [
  | inl y ↦ rw (y, (==_iff c b' ').0 y) (decoded-literal b'+' cs refl)
  | inr n ↦ rw n (elim (Bool-cases (is_unreserved c)) [
    | inl u ↦
        let p : (c == b'%') ≡ false = ground arith in
        let q : (c == b'+') ≡ false = ground arith in rw (u, decoded-literal c cs p, q) refl
    | inr w ↦ rw w (decoded-escape c cs lt)
  ])
]

-- What the encoder writes for any bytes stands for those bytes, with no bad escape.
pub decoded-encoded : (s : List ℕ) → AreBytes s → decoded (encoded s) ≡ (s, true)
unfolding encoded decoded
decoded-encoded [] h = refl
decoded-encoded (c ∷ cs) h = decoded-char c (encoded cs) h.0 ∙ ap (onto c) (decoded-encoded cs h.1)

pub feed-string :
    (g : Bool) (xs cs : List ℕ) → feed (append_c g) (some xs) cs ≡ (ok, some (xs ++ without_nul cs))
unfolding feed
feed-string g xs [] = rw append-nil refl
feed-string g xs (c ∷ cs) = rw append_c-some (elim (Bool-cases (c == 0)) [
  | inl y ↦ rw y (feed-string g xs cs)
  | inr n ↦ rw n (
      feed-string g (xs ++ (c ∷ [])) cs
      ∙ ap (λ t. (ok, some t)) (append_assoc xs (c ∷ []) (without_nul cs)))
])

-- Decoding an encoded text into a string gives back the text without its NUL bytes: a NUL is
-- encoded as `%00`, and the string decoder drops it. Both string decoders return 0.
pub decode-encode :
    (g g' : Bool) (old old' s : List ℕ)
    → AreBytes s
    → let (rc, e) = encode g (some old) (some s) in
      (rc ≡ ok)
      × (decode_eris g' (some old') e ≡ (ok, some (without_nul s)))
      × (decode g' (some old') e ≡ (ok, some (without_nul s)))
unfolding decode_eris decode cleanup
decode-encode g g' old old' s h = rw (encode-encoded g old s Buffer.empty).0 (refl, whole, whole)
  where
    whole : decode_loop (append_c g') start_mode (some []) (encoded s) ≡ (ok, some (without_nul s))
    whole =
        decode_loop-decoded (append_c g') start 0 (some []) (encoded s) refl
        ∙ rw (decoded-encoded s h) (feed-string g' [] s)

next-ok : {S : Type 0} (r : Errno × S) (f : S → Errno × S) → r.0 ≡ ok → next r f ≡ f r.1
next-ok (ok, s) f h = refl
next-ok (_, s) f h = cc

-- Bytes stored one by one in a buffer, whatever the new memory holds.
feed-buffer :
    (junk : ℕ) (xs : List ℕ) {b : Buffer}
    → IsValid b
    → b.alloc + 4 * length xs < 2 ^ 64
    → let (rc, b') = feed (Buffer.append_c (some junk)) b xs in
      (rc ≡ ok) × (contents b' ≡ contents b ++ xs) × IsValid b'
unfolding feed
feed-buffer junk [] {b} v h = (refl, sym (append-nil (contents b)), v)
feed-buffer junk (x ∷ xs) {b} v h = elim (append_c-Outcome (some junk) x v (omega arith)) [
  | inr (e, same, refused, small) ↦ cc
  | inl (e, a) ↦
      let b' : Buffer = (Buffer.append_c (some junk) b x).1 in
      let room : b'.alloc ≤ b.alloc + 4 = alloc-append_c (some junk) b x (omega arith) in
      let (e', bytes, v') = feed-buffer junk xs a.valid (omega arith) in
      rw
        (next-ok (Buffer.append_c (some junk) b x) (λ t. feed (Buffer.append_c (some junk)) t xs) e)
        (e', bytes ∙ ap (λ t. t ++ xs) a.bytes ∙ append_assoc (contents b) (x ∷ []) xs, v')
]

-- Decoding an encoded text into a buffer gives back exactly the bytes that were encoded, NUL bytes
-- included: both calls return 0, and the buffer stays valid. The buffer must be small enough that
-- its growth does not overflow, and the allocator must grant what is asked.
pub decode_buffer-encode :
    (g : Bool) (junk : ℕ) (old s : List ℕ) {b : Buffer}
    → AreBytes s
    → IsValid b
    → b.alloc + 4 * length s < 2 ^ 64
    → let (rc, e) = encode g (some old) (some s) in
      let (rc', b') = decode_buffer (some junk) b e in
      (rc ≡ ok) × (rc' ≡ ok) × (contents b' ≡ s) × IsValid b'
unfolding decode_buffer
decode_buffer-encode g junk old s {b} h v room =
    let (v', none_left, al) = cleanup-IsValid v in
    let (rc, bytes, w) = feed-buffer junk s v' (omega arith) in
    rw
      (
        (encode-encoded g old s Buffer.empty).0,
        decode_loop-decoded (Buffer.append_c (some junk)) start 0 (Buffer.cleanup b) (encoded s)
            refl,
        decoded-encoded s h,
      )
      (refl, rc, bytes ∙ ap (λ t. t ++ s) none_left, w)

-- Both string decoders on any input: they leave the decoded bytes up to the first bad escape, without
-- NUL bytes, and return 0 exactly when there is no bad escape, else EERIS_ERROR.
pub decode-decoded :
    (g : Bool) (old s : List ℕ)
    → (decode g (some old) (some s)
        ≡ ((if (decoded s).1 then ok else error), some (without_nul (decoded s).0)))
      × (decode_eris g (some old) (some s)
          ≡ ((if (decoded s).1 then ok else error), some (without_nul (decoded s).0)))
unfolding decode decode_eris cleanup
decode-decoded g old s = (whole, whole)
  where
    settle :
        (xs : List ℕ) (well : Bool)
        → finish (feed (append_c g) (some []) xs) well
          ≡ ((if well then ok else error), some (without_nul xs))
    settle xs true = feed-string g [] xs
    settle xs false = rw feed-string refl

    whole :
        decode_loop (append_c g) start_mode (some []) s
        ≡ ((if (decoded s).1 then ok else error), some (without_nul (decoded s).0))
    whole =
        decode_loop-decoded (append_c g) start 0 (some []) s refl
        ∙ settle (decoded s).0 (decoded s).1
