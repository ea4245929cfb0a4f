-- ===== src/UrlEncode/Decode.antt =====
-- The three decoding functions. They run the same automaton, two over a string, one over a buffer.
use Prim.Native.Nat.{bit_and, bit_or}
use erishttp.Common.{
  ℕ, ◌+◌, ◌-◌, ◌*◌, ◌&&◌, ◌||◌, Bool, Option, none, some, List, [], ◌∷◌, leb, ◌==◌, if◌then◌else◌,
  Errno, ok, error,
}
use erishttp.Buffer
use erishttp.Buffer.{Buffer}
use erishttp.Buffer.Block.{Grant}
use erishttp.EString.{EString, append_c, cleanup}
use erishttp.UrlEncode.Encode.{next}

-- the states ERIS_URLENCODE_*
pub data State : Type 0 where
  start alnum sign percent hex1 hex2 : State

-- ERIS_CHAR_IS_HEX
abbrev pub is_hex : ℕ → Bool
is_hex c = (leb b'0' c && leb c b'9') || ((leb b'a' c && leb c b'f') || (leb b'A' c && leb c b'F'))

-- the first digit, as the high half of a byte
unfoldable pub high_half : ℕ → ℕ
high_half c =
    if leb b'0' c && leb c b'9'
    then bit_and 0xF0 ((c - b'0') * 16)
    else if leb b'a' c && leb c b'z'
    then bit_and 0xF0 ((c - b'a' + 10) * 16)
    else bit_and 0xF0 ((c - b'A' + 10) * 16)

-- the second digit joined to the first
unfoldable pub join_half : ℕ → ℕ → ℕ
join_half b64_2_c c =
    if leb b'0' c && leb c b'9'
    then bit_or b64_2_c (bit_and 0x0F (c - b'0'))
    else if leb b'a' c && leb c b'f'
    then bit_or b64_2_c (bit_and 0x0F (c - b'a' + 10))
    else bit_or b64_2_c (bit_and 0x0F (c - b'A' + 10))

-- `eris_urlencode_state_v` and `b64_2_c`
pub record Mode : Type 0 where
  pub state : State
  pub b64_2_c : ℕ

module _ {S : Type 0} (put : S → ℕ → Errno × S) where
  -- the cases START, ALNUM, SIGN and HEX2
  unfoldable pub on_literal : Mode → S → ℕ → Mode × (Errno × S)
  on_literal m s c =
      if c == b'%'
      then (record m { state = percent }, (ok, s))
      else if c == b'+'
      then (record m { state = sign }, put s b' ')
      else (record m { state = alnum }, put s c)

  unfoldable pub on_percent : Mode → S → ℕ → Mode × (Errno × S)
  on_percent m s c =
      if is_hex c
      then (record { state = hex1; b64_2_c = high_half c }, (ok, s))
      else (m, (error, s))

  unfoldable pub on_hex1 : Mode → S → ℕ → Mode × (Errno × S)
  on_hex1 m s c =
      if is_hex c
      then (record { state = hex2; b64_2_c = 0 }, put s (join_half m.b64_2_c c))
      else (m, (error, s))

  abbrev pub dispatch : State → Mode → S → ℕ → Mode × (Errno × S)
  dispatch percent = on_percent
  dispatch hex1 = on_hex1
  dispatch start = on_literal
  dispatch alnum = on_literal
  dispatch sign = on_literal
  dispatch hex2 = on_literal

  unfoldable pub decode_loop : Mode → S → List ℕ → Errno × S
  decode_loop m s [] = (ok, s)
  decode_loop m s (c ∷ cs) =
      let (m', result) = dispatch m.state m s c in next result (λ s'. decode_loop m' s' cs)

abbrev pub start_mode : Mode
start_mode = record { state = start; b64_2_c = 0 }

unfoldable pub decode : Bool → EString → Option (List ℕ) → Errno × EString
unfolding decode_loop
decode g out none = (error, out)
decode g out (some in_s) = decode_loop (append_c g) start_mode (cleanup out) in_s

unfoldable pub decode_eris : Bool → EString → EString → Errno × EString
unfolding decode_loop
decode_eris g out none = (error, out)
decode_eris g out (some in_s) = decode_loop (append_c g) start_mode (cleanup out) in_s

unfoldable pub decode_buffer : Grant → Buffer → EString → Errno × Buffer
unfolding decode_loop
decode_buffer g out none = (error, out)
decode_buffer g out (some in_s) =
    decode_loop (Buffer.append_c g) start_mode (Buffer.cleanup out) in_s
