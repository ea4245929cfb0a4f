-- ===== src/Http/Chunk/RoundTrip.antt =====
-- The chunk parser on a chunked text as a client writes it.
use erishttp.Common.{
  ℕ, ◌+◌, ◌*◌, ◌^◌, ◌≤◌, ◌<◌, ◌≡◌, refl, sym, ◌∙◌, ap, subst, true, false, not, ◌||◌, none, some,
  List, [], ◌∷◌, ◌++◌, append_assoc, append-nil, arith, length, length-append, All, ltb, ok, is_ok,
}
use erishttp.EString.{EString, text}
use erishttp.EString.Hex.{hextov}
use erishttp.Buffer.{Buffer, contents}
use erishttp.Buffer.Inv.{IsValid}
use erishttp.Http.Types.{Http, ChunkState}
use erishttp.Http.Header.{Heap, grants, cr, lf}
use erishttp.Http.Chunk.{request, Chunk, on_chunk_lf1, on_chunk_cr2, parse_bytes, chunk_parse}
use erishttp.Http.Chunk.Feed.{at, filled, filled_lem}
use erishttp.Http.Chunk.Pieces.{
  Piece, data_of, render_pieces, IsPiece, IsPiece-size, Takes, chunked-Takes, data_lf-Takes,
  size-run, content-run,
}

module _ (heap : Heap) (granted : (n : ℕ) → grants (heap n) ≡ true) (ctx : Http) where
  -- The whole of a chunked text was taken into the body.
  record Decoded (b : Buffer) (bytes : List ℕ) (k : Chunk) : Type 0 where
    fine : k.rc ≡ ok
    stopped : k.context.chunked_end ≡ true
    same : k.context.response ≡ ctx.response
    holds : contents k.context.request.body ≡ contents b ++ bytes
    valid : IsValid k.context.request.body

  last-Decoded :
      (b : Buffer) (i : ℕ) (rest : List ℕ) (n : ℕ)
      → IsValid b
      → b.size ≤ ctx.attrs.body_max_size
      → Decoded b [] (
          parse_bytes heap request i (cr ∷ lf ∷ rest) (at ctx ChunkState.chunk_lf1 (some []) b n 0))
  unfolding parse_bytes on_chunk_lf1 on_chunk_cr2
  last-Decoded b i rest n v fits =
      let small : ltb ctx.attrs.body_max_size b.size ≡ false = ground arith in
      rw small (record {
        fine = refl;
        stopped = refl;
        same = refl;
        holds = sym (append-nil (contents b));
        valid = v;
      })

  render-cons :
      (p : Piece) (ps : List Piece) (rest : List ℕ)
      → render_pieces (p ∷ ps) ++ rest
        ≡ p.digit
          ∷ (p.digits ++ (cr ∷ lf ∷ p.byte ∷ (p.bytes ++ (cr ∷ lf ∷ (render_pieces ps ++ rest)))))
  render-cons p ps rest =
      ap (λ t. p.digit ∷ t)
        (append_assoc p.digits (cr ∷ lf ∷ p.byte ∷ (p.bytes ++ (cr ∷ lf ∷ render_pieces ps))) rest
          ∙ ap (λ t. p.digits ++ (cr ∷ lf ∷ p.byte ∷ t))
              (append_assoc p.bytes (cr ∷ lf ∷ render_pieces ps) rest))

  pieces-Decoded :
      (ps : List Piece) (st : ChunkState) (es : EString) (b : Buffer) (i : ℕ) (rest : List ℕ)
      → Takes st
      → text es ≡ []
      → All IsPiece ps
      → IsValid b
      → b.alloc + 4 * length (data_of ps) < 2 ^ 64
      → b.size + length (data_of ps) ≤ ctx.attrs.body_max_size
      → Decoded b
          (data_of ps)
          (parse_bytes heap request i (render_pieces ps ++ rest) (at ctx st es b 0 0))
  pieces-Decoded [] st es b i rest takes none_yet all v room fits =
      subst (Decoded b [])
        (sym (
          size-run heap granted ctx st es b i b'0' [] (cr ∷ lf ∷ rest) takes none_yet refl tt
            (omega arith)))
        (last-Decoded b (i + 1 + 0 + 1 + 1) rest (hextov (some (b'0' ∷ []))) v (omega arith))
  pieces-Decoded (p ∷ ps) st es b i rest takes none_yet (one, all) v room fits =
      let l : length (data_of (p ∷ ps)) ≡ length (p.byte ∷ p.bytes) + length (data_of ps) =
        length-append (p.byte ∷ p.bytes) (data_of ps) in
      let j : ℕ = i + 1 + length p.digits + 1 + 1 in
      let b' : Buffer = filled heap j (p.byte ∷ p.bytes) b in
      let (w, same, al, longer) =
        filled_lem heap granted j (p.byte ∷ p.bytes) b v (omega (arith, l)) in
      let tail : List ℕ = render_pieces ps ++ rest in
      let read_size : hextov (some (p.digit ∷ p.digits)) ≡ length p.bytes + 1 =
        IsPiece-size p one in
      let run =
        ap (λ t. parse_bytes heap request i t (at ctx st es b 0 0)) (render-cons p ps rest)
        ∙ size-run heap granted ctx st es b i p.digit p.digits
            (p.byte ∷ (p.bytes ++ (cr ∷ lf ∷ tail))) takes none_yet one.hex one.hexes (omega arith)
        ∙ content-run heap granted ctx b (hextov (some (p.digit ∷ p.digits))) j p.byte p.bytes tail
            read_size one.plain one.plains v (omega (arith, l))
            (omega (arith, read_size, one.small)) (omega (arith, l)) in
      let d : Decoded b' (data_of ps) (
          parse_bytes heap request (j + 1 + length p.bytes + 1 + 1) tail
            (at ctx ChunkState.chunk_data_lf (some []) b' 0 0)) =
        pieces-Decoded ps ChunkState.chunk_data_lf (some []) b' (j + 1 + length p.bytes + 1 + 1)
          rest data_lf-Takes refl all w (omega (arith, al, l)) (omega (arith, longer, l)) in
      subst (Decoded b (data_of (p ∷ ps))) (sym run) (record {
        fine = d.fine;
        stopped = d.stopped;
        same = d.same;
        holds =
            d.holds
            ∙ ap (λ t. t ++ data_of ps) same
            ∙ append_assoc (contents b) (p.byte ∷ p.bytes) (data_of ps);
        valid = d.valid;
      })

-- the context as `eris_http_request_parse` leaves it before the first chunk
abbrev pub begun : Http → Http
begun ctx = record ctx {
  chunk_state = ChunkState.chunked;
  chunked_end = false;
  chunk_size = 0;
  tmp_chunk_size = 0;
}

-- `eris_http_chunk_parse` for a request, on an input buffer that holds a whole chunked text with
-- anything behind it: it returns 0, the last chunk was seen, the body has got exactly the data of the
-- chunks and is valid, and the answer is as before. Each chunk has 1 to 255 bytes, none of them a
-- carriage return, and its size is this number in hexadecimal digits of either case, with 0 in front
-- or not. The body with the data must be within the body limit, the growth of the buffer must not
-- overflow, and the allocator must grant what is asked.
pub chunk_parse-render :
    (heap : Heap) (ps : List Piece) (rest : List ℕ) (b : Buffer) (ctx : Http)
    → ((n : ℕ) → grants (heap n) ≡ true)
    → All IsPiece ps
    → IsValid ctx.request.body
    → contents b ≡ render_pieces ps ++ rest
    → ctx.request.body.alloc + 4 * length (data_of ps) < 2 ^ 64
    → ctx.request.body.size + length (data_of ps) ≤ ctx.attrs.body_max_size
    → let (rc, ctx') = chunk_parse heap request b (begun ctx) in
      (rc ≡ ok)
      × (ctx'.chunked_end ≡ true)
      × (contents ctx'.request.body ≡ contents ctx.request.body ++ data_of ps)
      × IsValid ctx'.request.body
      × (ctx'.response ≡ ctx.response)
unfolding chunk_parse
chunk_parse-render heap ps rest b ctx granted all v held room fits =
    let d =
      pieces-Decoded heap granted ctx ps ChunkState.chunked none ctx.request.body 0 rest
        chunked-Takes refl all v room fits in
    let stop : (not (
            is_ok
              (parse_bytes heap request 0 (render_pieces ps ++ rest)
                (at ctx ChunkState.chunked none ctx.request.body 0 0)).rc)
          || (parse_bytes heap request 0 (render_pieces ps ++ rest)
              (at ctx ChunkState.chunked none ctx.request.body 0 0)).context.chunked_end)
        ≡ true =
      rw d.stopped (ground arith) in
    rw (held, stop) (d.fine, d.stopped, d.holds, d.valid, d.same)
