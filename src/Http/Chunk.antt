-- ===== src/Http/Chunk.antt =====
-- `eris_http_chunk_parse` of src/core/eris.http.c: the automaton over the bytes of a chunked body.
pub mod Branches
pub mod Answer
pub mod Feed
pub mod Sizes
pub mod Pieces
pub mod RoundTrip
mod Tests
use erishttp.Common.{
  ℕ, ◌+◌, ◌%◌, ◌^◌, Bool, true, false, not, ◌&&◌, ◌||◌, Option, none, some, List, [], ◌∷◌, ltb,
  ◌==◌, if◌then◌else◌, Errno, ok, error, bad_data, is_ok,
}
use erishttp.EString.{EString, append_c, cleanup}
use erishttp.EString.Hex.{hextov}
use erishttp.Buffer
use erishttp.Buffer.{Buffer, contents}
use erishttp.Buffer.Block.{Grant}
use erishttp.UrlEncode.{is_alnum, is_hex}
use erishttp.Http.Types.{Request, Response, Http, ChunkState}
use erishttp.Http.Fail.{refuse, answer}
use erishttp.Http.Header.{Heap, grants, cr, lf}

-- `eris_http_type_e`
pub data MessageType : Type 0 where
  request response : MessageType

-- the context and the locals `chunk_size_s` and `rc`
pub record Chunk : Type 0 where
  pub context : Http
  pub size_s : EString
  pub rc : Errno

abbrev pub goto : ChunkState → Chunk → Chunk
goto s k = record k { context = record (k.context) { chunk_state = s } }

-- A failure; the answer is written for a request only.
abbrev pub fail : MessageType → Errno → ℕ → Chunk → Chunk
unfolding refuse
fail request rc status k = record k { rc = rc; context = refuse k.context status }
fail response rc status k = record k { rc = rc }

abbrev pub invalid_chunk : MessageType → Chunk → Chunk
invalid_chunk t = fail t bad_data 400

abbrev pub sized : MessageType → Errno × EString → Chunk → Chunk
sized t (ok, es) k = record k { size_s = es }
sized t (rc, es) k = fail t error 500 (record k { size_s = es })

-- a digit of the chunk size
abbrev pub push_size : MessageType → Grant → ℕ → Chunk → Chunk
push_size t g c k = sized t (append_c (grants g) k.size_s c) (goto ChunkState.chunk_size k)

abbrev pub body_of : MessageType → Http → Buffer
body_of request ctx = ctx.request.body
body_of response ctx = ctx.response.body

abbrev pub with_body : MessageType → Buffer → Http → Http
with_body request b ctx = record ctx { request = record (ctx.request) { body = b } }
with_body response b ctx = record ctx { response = record (ctx.response) { body = b } }

abbrev pub put_body : MessageType → Errno × Buffer → Chunk → Chunk
put_body t (ok, b) k = record k { context = with_body t b k.context }
put_body t (rc, b) k = fail t error 500 (record k { context = with_body t b k.context })

abbrev pub counted : Chunk → Chunk
counted k = record k {
  context = record (k.context) { tmp_chunk_size = (k.context.tmp_chunk_size + 1) % 2 ^ 64 };
}

-- a byte of the data
abbrev pub push_body : MessageType → Grant → ℕ → Chunk → Chunk
push_body t g c k = counted (put_body t (Buffer.append_c g (body_of t k.context) c) k)

abbrev pub is_word : ℕ → Bool
is_word c = c == b'_' || (is_alnum c || c == b'-')

abbrev pub ended : Chunk → Chunk
ended k = record k { context = record (k.context) { chunked_end = true } }

-- case ERIS_HTTP_CHUNKED
unfoldable pub on_chunked : MessageType → Grant → ℕ → Chunk → Chunk
on_chunked t g c k = if is_hex c then push_size t g c k else invalid_chunk t k

-- case ERIS_HTTP_CHUNK_SIZE
unfoldable pub on_chunk_size : MessageType → Grant → ℕ → Chunk → Chunk
on_chunk_size t g c k =
    if is_hex c
    then push_size t g c k
    else if c == b';'
    then goto ChunkState.chunk_ext_name k
    else if c == cr
    then goto ChunkState.chunk_cr1 k
    else invalid_chunk t k

-- case ERIS_HTTP_CHUNK_EXT_NAME
unfoldable pub on_chunk_ext_name : MessageType → ℕ → Chunk → Chunk
on_chunk_ext_name t c k =
    if c == b'='
    then goto ChunkState.chunk_ext_value k
    else if is_word c
    then k
    else invalid_chunk t k

-- case ERIS_HTTP_CHUNK_EXT_VALUE
unfoldable pub on_chunk_ext_value : MessageType → ℕ → Chunk → Chunk
on_chunk_ext_value t c k =
    if c == b';'
    then goto ChunkState.chunk_ext_name k
    else if c == cr
    then goto ChunkState.chunk_cr1 k
    else if is_word c
    then k
    else invalid_chunk t k

-- case ERIS_HTTP_CHUNK_CR1
unfoldable pub on_chunk_cr1 : MessageType → ℕ → Chunk → Chunk
on_chunk_cr1 t c k =
    if c == lf
    then record k {
      context = record (k.context) {
        chunk_size = hextov k.size_s;
        chunk_state = ChunkState.chunk_lf1;
      };
      size_s = cleanup k.size_s;
    }
    else invalid_chunk t k

-- case ERIS_HTTP_CHUNK_LF1
unfoldable pub on_chunk_lf1 : MessageType → Grant → ℕ → Chunk → Chunk
on_chunk_lf1 t g c k =
    if c == cr
    then goto ChunkState.chunk_cr2 k
    else if k.context.chunk_size == 0
    then goto ChunkState.chunk_trailer_name k
    else goto ChunkState.chunk_data (push_body t g c k)

-- case ERIS_HTTP_CHUNK_CR2
unfoldable pub on_chunk_cr2 : MessageType → ℕ → Chunk → Chunk
on_chunk_cr2 t c k = if c == lf then ended (goto ChunkState.chunk_lf2 k) else invalid_chunk t k

-- case ERIS_HTTP_CHUNK_TRAILER_NAME
unfoldable pub on_chunk_trailer_name : MessageType → ℕ → Chunk → Chunk
on_chunk_trailer_name t c k =
    if c == b':'
    then goto ChunkState.chunk_trailer_value k
    else if is_word c
    then k
    else invalid_chunk t k

-- case ERIS_HTTP_CHUNK_TRAILER_VALUE
unfoldable pub on_chunk_trailer_value : MessageType → ℕ → Chunk → Chunk
on_chunk_trailer_value t c k =
    if c == cr then goto ChunkState.chunk_cr1 k else if is_word c then k else invalid_chunk t k

abbrev pub forget_sizes : Chunk → Chunk
forget_sizes k = record k { context = record (k.context) { chunk_size = 0; tmp_chunk_size = 0 } }

-- case ERIS_HTTP_CHUNK_DATA: a carriage return ends the data wherever it stands.
unfoldable pub on_chunk_data : MessageType → Grant → ℕ → Chunk → Chunk
on_chunk_data t g c k =
    if c == cr
    then forget_sizes (
        if k.context.tmp_chunk_size == k.context.chunk_size
        then goto ChunkState.chunk_data_cr k
        else invalid_chunk t (goto ChunkState.chunk_data_cr k))
    else if ltb k.context.tmp_chunk_size k.context.chunk_size
    then push_body t g c k
    else invalid_chunk t k

-- case ERIS_HTTP_CHUNK_DATA_CR
unfoldable pub on_chunk_data_cr : MessageType → ℕ → Chunk → Chunk
on_chunk_data_cr t c k = if c == lf then goto ChunkState.chunk_data_lf k else invalid_chunk t k

-- case ERIS_HTTP_CHUNK_DATA_LF
unfoldable pub on_chunk_data_lf : MessageType → Grant → ℕ → Chunk → Chunk
on_chunk_data_lf t g c k =
    if c == cr
    then goto ChunkState.chunk_cr2 k
    else if is_hex c
    then push_size t g c k
    else invalid_chunk t k

-- the `switch`
abbrev pub step : MessageType → Grant → ℕ → ChunkState → Chunk → Chunk
step t g c ChunkState.chunked = on_chunked t g c
step t g c ChunkState.chunk_size = on_chunk_size t g c
step t g c ChunkState.chunk_ext_name = on_chunk_ext_name t c
step t g c ChunkState.chunk_ext_value = on_chunk_ext_value t c
step t g c ChunkState.chunk_cr1 = on_chunk_cr1 t c
step t g c ChunkState.chunk_lf1 = on_chunk_lf1 t g c
step t g c ChunkState.chunk_cr2 = on_chunk_cr2 t c
step t g c ChunkState.chunk_lf2 = ended
step t g c ChunkState.chunk_trailer_name = on_chunk_trailer_name t c
step t g c ChunkState.chunk_trailer_value = on_chunk_trailer_value t c
step t g c ChunkState.chunk_data = on_chunk_data t g c
step t g c ChunkState.chunk_data_cr = on_chunk_data_cr t c
step t g c ChunkState.chunk_data_lf = on_chunk_data_lf t g c
step t g c ChunkState.chunked_finish = ended

abbrev pub is_request : MessageType → Bool
is_request request = true
is_request response = false

-- the test of the body's size, before every byte of a request
abbrev pub is_too_large : MessageType → Chunk → Bool
is_too_large t k = is_request t && ltb k.context.attrs.body_max_size k.context.request.body.size

-- the `for` loop, from place `i` on
unfoldable pub parse_bytes : Heap → MessageType → ℕ → List ℕ → Chunk → Chunk
parse_bytes heap t i [] k = k
parse_bytes heap t i (c ∷ cs) k =
    let r = step t (heap i) c k.context.chunk_state k in
    let rest = parse_bytes heap t (i + 1) cs r in
    if is_too_large t k
    then fail t bad_data 413 k
    else if not (is_ok r.rc) || r.context.chunked_end
    then r
    else rest

-- the return code and the context at the end
abbrev pub finish : Chunk → Errno × Http
finish k =
    if not (is_ok k.rc) || k.context.chunked_end
    then (
      k.rc,
      record (k.context) { chunk_state = ChunkState.chunked; chunk_size = 0; tmp_chunk_size = 0 },
    )
    else (k.rc, k.context)

-- `chunk_size_s` is a local: digits of a size that one call has read are not known to the next.
unfoldable pub chunk_parse : Heap → MessageType → Buffer → Http → Errno × Http
unfolding parse_bytes
chunk_parse heap t inbuffer ctx =
    finish
      (parse_bytes heap t 0 (contents inbuffer) (record { context = ctx; size_s = none; rc = ok }))
