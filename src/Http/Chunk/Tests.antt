-- ===== src/Http/Chunk/Tests.antt =====
-- Runs of the chunk parser, and the theorems at a concrete chunked body.
use erishttp.Common.{
  ◌+◌, ◌≡◌, ◌≤◌, ◌⊎◌, refl, true, false, not, ◌||◌, some, none, [], ◌∷◌, ◌++◌, codes, length, arith,
  ok, is_ok,
}
use erishttp.Buffer.{Buffer, empty, contents}
use erishttp.Buffer.Inv.{IsValid}
use erishttp.Http.Types.{Attrs, unknow, v00, Request, Http, ChunkState}
use erishttp.Http.Header.{Heap}
use erishttp.Http.Chunk.{request, chunk_parse}
use erishttp.Http.Chunk.Answer.{chunk_parse-answer}
use erishttp.Http.Chunk.Pieces.{Piece, IsPiece, render_pieces}
use erishttp.Http.Chunk.RoundTrip.{begun, chunk_parse-render}

abbrev attrs : Attrs
attrs = record {
  url_max_size = 1024;
  header_max_size = 4096;
  body_max_size = 64;
  header_cache_size = 4096;
  body_cache_size = 16384;
}

abbrev empty_request : Request
empty_request = record {
  shake = false;
  command = unknow;
  url = none;
  version = v00;
  headers = [];
  parameters = none;
  query = none;
  fragment = none;
  body = empty;
}

abbrev context : Http
context = record {
  attrs = attrs;
  request = empty_request;
  response = record { status = 0; version = v00; reason = 0; body = empty };
  hbuffer = empty;
  bbuffer = empty;
  chunk_state = ChunkState.chunk_data;
  is_chunked = true;
  chunked_end = false;
  chunk_size = 7;
  tmp_chunk_size = 3;
}

abbrev heap : Heap
heap n = some 170

abbrev hello : Piece
hello = record { digit = b'5'; digits = []; byte = b'h'; bytes = codes "ello" }

-- seventeen bytes
abbrev world : Piece
world = record { digit = b'1'; digits = codes "1"; byte = b' '; bytes = codes "world, world, hi" }

abbrev input : Buffer
input =
    let xs = render_pieces (hello ∷ world ∷ []) ++ codes "GET" in
    record { alloc = length xs; size = length xs; block = some xs }

pieces-IsPiece : IsPiece hello × IsPiece world
pieces-IsPiece = (
  record {
    hex = refl;
    hexes = tt;
    size = refl;
    small = omega arith;
    plain = refl;
    plains = (refl, (refl, (refl, (refl, tt))));
  },
  record {
    hex = refl;
    hexes = (refl, tt);
    size = refl;
    small = omega arith;
    plain = refl;
    plains = (
      refl,
      (
        refl,
        (
          refl,
          (
            refl,
            (
              refl,
              (
                refl,
                (refl, (refl, (refl, (refl, (refl, (refl, (refl, (refl, (refl, (refl, tt)))))))))),
              ),
            ),
          ),
        ),
      ),
    );
  },
)

chunk_parse-render_example :
    let (rc, ctx') = chunk_parse heap request input (begun context) in
    (rc ≡ ok)
    × (ctx'.chunked_end ≡ true)
    × (contents ctx'.request.body ≡ codes "hello world, world, hi")
    × IsValid ctx'.request.body
    × (ctx'.response ≡ context.response)
chunk_parse-render_example =
    chunk_parse-render heap (hello ∷ world ∷ []) (codes "GET") input context (λ n. refl)
      (pieces-IsPiece.0, (pieces-IsPiece.1, tt)) (omega arith) refl (omega arith) (omega arith)

chunk_parse-answer_example :
    let (rc, ctx') = chunk_parse heap request input context in
    (((rc ≡ ok) × (ctx'.response ≡ context.response))
      ⊎ ((is_ok rc ≡ false) × (400 ≤ ctx'.response.status)))
    × (ctx'.request.body.size ≤ 64 + 1)
    × ((not (is_ok rc) || ctx'.chunked_end) ≡ true
        → (ctx'.chunk_state ≡ ChunkState.chunked)
          × (ctx'.chunk_size ≡ 0)
          × (ctx'.tmp_chunk_size ≡ 0))
chunk_parse-answer_example = chunk_parse-answer heap input context (omega arith)
