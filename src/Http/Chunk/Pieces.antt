-- ===== src/Http/Chunk/Pieces.antt =====
-- Chunks as a client writes them, and the automaton over one of them.
use erishttp.Common.{
  ℕ, ◌+◌, ◌*◌, ◌^◌, ◌≤◌, ◌<◌, ◌≡◌, refl, ◌∙◌, ap, true, false, none, some, List, [], ◌∷◌, ◌++◌,
  arith, length, All, ◌==◌,
}
use erishttp.EString.{EString, text, cleanup}
use erishttp.EString.Hex.{hextov}
use erishttp.Buffer
use erishttp.Buffer.{Buffer, contents}
use erishttp.Buffer.Block.{Grant}
use erishttp.Buffer.Inv.{IsValid}
use erishttp.UrlEncode.{is_hex}
use erishttp.Http.Types.{Http, ChunkState}
use erishttp.Http.Header.{Heap, grants, cr, lf}
use erishttp.Http.Header.Feed.{grow, extend-some, append_c-grow}
use erishttp.Http.Chunk.{
  request, Chunk, push_size, goto, on_chunked, on_chunk_size, on_chunk_cr1, on_chunk_lf1,
  on_chunk_data, on_chunk_data_cr, on_chunk_data_lf, step, parse_bytes,
}
use erishttp.Http.Chunk.Sizes.{hex_value, hextov-hex_value}
use erishttp.Http.Chunk.Feed.{
  at, filled, put, filled_lem, one_byte, push_body-at, digits-run, data-run,
}

-- A chunk: the text of its size and its data, both in two parts since they must not be empty.
pub record Piece : Type 0 where
  pub digit : ℕ
  pub digits : List ℕ
  pub byte : ℕ
  pub bytes : List ℕ

abbrev pub data_of : List Piece → List ℕ
data_of [] = []
data_of (p ∷ ps) = (p.byte ∷ p.bytes) ++ data_of ps

-- the chunks, then the last chunk, which is empty, with no trailer
abbrev pub render_pieces : List Piece → List ℕ
render_pieces [] = b'0' ∷ cr ∷ lf ∷ cr ∷ lf ∷ []
render_pieces (p ∷ ps) =
    p.digit ∷ (p.digits ++ (cr ∷ lf ∷ p.byte ∷ (p.bytes ++ (cr ∷ lf ∷ render_pieces ps))))

-- The size is the number of bytes in hexadecimal digits, below 256; no byte is a carriage return.
pub record IsPiece (p : Piece) : Type 0 where
  pub hex : is_hex p.digit ≡ true
  pub hexes : All (λ d. is_hex d ≡ true) p.digits
  pub size : hex_value 0 (p.digit ∷ p.digits) ≡ length p.bytes + 1
  pub small : length p.bytes + 1 < 256
  pub plain : (p.byte == cr) ≡ false
  pub plains : All (λ c. (c == cr) ≡ false) p.bytes

pub IsPiece-size : (p : Piece) → IsPiece p → hextov (some (p.digit ∷ p.digits)) ≡ length p.bytes + 1
IsPiece-size p is =
    hextov-hex_value (p.digit ∷ p.digits) (is.hex, is.hexes) (omega (arith, is.size, is.small))
    ∙ is.size

-- a state that takes the first digit of a size
abbrev pub Takes : ChunkState → Type 0
Takes st =
    (g : Grant) (c : ℕ) (k : Chunk)
    → is_hex c ≡ true
    → step request g c st k ≡ push_size request g c k

pub chunked-Takes : Takes ChunkState.chunked
unfolding on_chunked
chunked-Takes g c k h = rw h refl

pub data_lf-Takes : Takes ChunkState.chunk_data_lf
unfolding on_chunk_data_lf
data_lf-Takes g c k h = let n : (c == cr) ≡ false = ground arith in rw (n, h) refl

grow-empty : (es : EString) (c : ℕ) → text es ≡ [] → grow es c ≡ some (c ∷ [])
grow-empty none c h = refl
grow-empty (some xs) c h = ap (λ ys. some (ys ++ (c ∷ []))) h

module _ (heap : Heap) (granted : (n : ℕ) → grants (heap n) ≡ true) (ctx : Http) where
  -- a size and its line end
  pub size-run :
      (st : ChunkState) (es : EString) (b : Buffer) (i d : ℕ) (ds rest : List ℕ)
      → Takes st
      → text es ≡ []
      → is_hex d ≡ true
      → All (λ x. is_hex x ≡ true) ds
      → b.size ≤ ctx.attrs.body_max_size
      → parse_bytes heap request i (d ∷ (ds ++ (cr ∷ lf ∷ rest))) (at ctx st es b 0 0)
        ≡ parse_bytes heap request
            (i + 1 + length ds + 1 + 1)
            rest
            (at ctx ChunkState.chunk_lf1 (some []) b (hextov (some (d ∷ ds))) 0)
  unfolding on_chunk_size on_chunk_cr1 cleanup
  size-run st es b i d ds rest takes none_yet hex hexes fits =
      one_byte heap granted i d (ds ++ (cr ∷ lf ∷ rest)) (at ctx st es b 0 0) (ground arith)
        (takes (heap i) d (at ctx st es b 0 0) hex
          ∙ rw (granted i, append_c-grow es d (ground arith), grow-empty es d none_yet) refl)
        refl
      ∙ digits-run heap granted ctx b 0 0 ds (cr ∷ lf ∷ rest) (some (d ∷ [])) (i + 1) hexes fits
      ∙ ap
          (λ s.
            parse_bytes heap request (i + 1 + length ds) (cr ∷ lf ∷ rest)
              (at ctx ChunkState.chunk_size s b 0 0))
          (extend-some (d ∷ []) ds)
      ∙ one_byte heap granted (i + 1 + length ds) cr (lf ∷ rest)
          (at ctx ChunkState.chunk_size (some (d ∷ ds)) b 0 0) (ground arith) refl refl
      ∙ one_byte heap granted (i + 1 + length ds + 1) lf rest
          (at ctx ChunkState.chunk_cr1 (some (d ∷ ds)) b 0 0) (ground arith) refl refl

  -- the data of a chunk and the line end behind it
  pub content-run :
      (b : Buffer) (n i c : ℕ) (cs rest : List ℕ)
      → n ≡ length cs + 1
      → (c == cr) ≡ false
      → All (λ x. (x == cr) ≡ false) cs
      → IsValid b
      → b.alloc + 4 * length (c ∷ cs) < 2 ^ 64
      → n < 2 ^ 64
      → b.size + length (c ∷ cs) ≤ ctx.attrs.body_max_size
      → parse_bytes heap request i
          (c ∷ (cs ++ (cr ∷ lf ∷ rest)))
          (at ctx ChunkState.chunk_lf1 (some []) b n 0)
        ≡ parse_bytes heap request
            (i + 1 + length cs + 1 + 1)
            rest
            (at ctx ChunkState.chunk_data_lf (some []) (filled heap i (c ∷ cs) b) 0 0)
  unfolding on_chunk_lf1 on_chunk_data on_chunk_data_cr
  content-run b n i c cs rest size plain plains v room small fits =
      let p = put heap granted i b c v (omega arith) in
      let b1 : Buffer = (Buffer.append_c (heap i) b c).1 in
      let (w, same, al, longer) =
        filled_lem heap granted (i + 1) cs b1 p.valid (omega (arith, p.room)) in
      let full : Buffer = filled heap (i + 1) cs b1 in
      let some_left : (n == 0) ≡ false = ground arith in
      let complete : (1 + length cs == n) ≡ true = ground arith in
      let within : full.size ≤ ctx.attrs.body_max_size = omega (arith, p.longer, longer) in
      one_byte heap granted i c (cs ++ (cr ∷ lf ∷ rest))
        (at ctx ChunkState.chunk_lf1 (some []) b n 0) (ground arith)
        (rw (plain, some_left)
          (ap (goto ChunkState.chunk_data) (
            push_body-at heap granted ctx ChunkState.chunk_lf1 (some []) b n 0 i c v (omega arith)
              (omega arith))))
        refl
      ∙ data-run heap granted ctx (some []) n cs (cr ∷ lf ∷ rest) b1 1 (i + 1) plains p.valid
          (omega (arith, p.room)) small (omega arith) (omega (arith, p.longer))
      ∙ one_byte heap granted (i + 1 + length cs) cr (lf ∷ rest)
          (at ctx ChunkState.chunk_data (some []) full n (1 + length cs)) (ground arith)
          (rw complete refl) refl
      ∙ one_byte heap granted (i + 1 + length cs + 1) lf rest
          (at ctx ChunkState.chunk_data_cr (some []) full 0 0) (ground arith) refl refl
