-- ===== src/Http/Body.antt =====
-- The body part of `eris_http_request_parse` in src/core/eris.http.c, behind the header part.
mod Tests
pub mod Collect
pub mod Rounds
pub mod Length
use erishttp.Common.{
  ℕ, ◌+◌, ◌^◌, Bool, true, false, not, ◌&&◌, ◌||◌, Option, none, some, List, [], ◌∷◌, leb, ltb,
  ◌==◌, if◌then◌else◌, codes, Errno, ok, error, client_4xx, is_ok,
}
use erishttp.EString.{EString, is_equal}
use erishttp.EString.Decimal.{atol}
use erishttp.Buffer
use erishttp.Buffer.{Buffer}
use erishttp.Buffer.Block.{Grant}
use erishttp.Http.Types.{Command, put, post, patch, v11, Hnode, Request, Response, Http}
use erishttp.Http.Fail.{refuse, answer, with_response}
use erishttp.Http.Header.{Heap, Read}
use erishttp.Http.Chunk
use erishttp.Http.Chunk.{chunk_parse}

-- the search of `eris_http_request_get_header`, without regard to case; NULL where there is none
unfoldable pub find_header : List ℕ → List Hnode → EString
find_header name [] = none
find_header name ((n, v) ∷ hs) =
    let rest = find_header name hs in if is_equal true n (some name) then v else rest

abbrev pub get_header : List ℕ → Http → EString
unfolding find_header
get_header name ctx = find_header name ctx.request.headers

-- a failure with its answer
abbrev pub failed : Errno → ℕ → Http → Errno × Http
unfolding refuse
failed rc status ctx = (rc, refuse ctx status)

abbrev pub with_body : Buffer → Http → Http
with_body b ctx = record ctx { request = record (ctx.request) { body = b } }

abbrev pub appended : Errno × Buffer → Http → (Http → Option (Errno × Http)) → Option (Errno × Http)
appended (ok, b) ctx rest = rest (with_body b ctx)
appended (rc, b) ctx rest = some (failed error 500 (with_body b ctx))

-- The loop that appends reads to the body up to the length `n`. With every read comes the allocator's
-- answer. `none` means that the loop still goes on after these reads.
unfoldable pub collect : ℕ → List (Grant × Read) → Http → Option (Errno × Http)
unfolding Buffer.append_es
collect n [] ctx = if ltb ctx.request.body.size n then none else some (ok, ctx)
collect n ((g, (rc, b)) ∷ reads) ctx =
    let got = record ctx { bbuffer = b } in
    let rest = appended (Buffer.append_es g ctx.request.body b) got (collect n reads) in
    if ltb ctx.request.body.size n
    then if is_ok rc then rest else some (failed client_4xx 408 got)
    else some (ok, ctx)

-- The tests of a Content-Length. As a `size_t` a negative length is larger than the limit.
unfoldable pub check_length : EString → Http → (ℕ → Option (Errno × Http)) → Option (Errno × Http)
check_length none ctx rest = some (failed client_4xx 411 ctx)
check_length (some s) ctx rest =
    let n = atol (some s) in
    if leb n ctx.attrs.body_max_size
    then if ltb n (2 ^ 63) then rest n else some (failed client_4xx 400 ctx)
    else some (failed client_4xx 413 ctx)

abbrev pub copied : Errno × Buffer → Http → (Http → Option (Errno × Http)) → Option (Errno × Http)
copied (ok, b) ctx rest = rest (with_body b ctx)
copied (rc, b) ctx rest = some (failed error 500 (with_body b ctx))

-- the body by its length
unfoldable pub receive_length : Grant → List (Grant × Read) → Http → Option (Errno × Http)
unfolding check_length collect
receive_length g reads ctx =
    copied (Buffer.copy g ctx.request.body ctx.bbuffer) ctx
      (λ c. check_length (get_header (codes "Content-Length") c) c (λ n. collect n reads c))

-- One round of the loop over chunks: the result that ends the loop, or the context for the next round.
-- The status of a failure is overwritten.
abbrev pub ended_round : Errno × Http → Option (Errno × Http)
unfolding refuse
ended_round (rc, ctx) =
    if ctx.chunked_end then some (rc, ctx) else if is_ok rc then none else some (rc, refuse ctx 408)

abbrev pub after_round : Errno × Http → (Http → Option (Errno × Http)) → Option (Errno × Http)
after_round r rest = elim (ended_round r) [
  | some e ↦ some e
  | none ↦ rest (record (r.1) { bbuffer = Buffer.cleanup r.1.bbuffer })
]

abbrev pub chunk_round : Heap → Http → (Http → Option (Errno × Http)) → Option (Errno × Http)
chunk_round heap ctx rest = after_round (chunk_parse heap Chunk.request ctx.bbuffer ctx) rest

-- The rounds, each with a read, whose return code is overwritten. `none` means that the loop still
-- goes on after these reads.
unfoldable pub chunk_loop : List (Heap × Read) → Http → Option (Errno × Http)
chunk_loop [] ctx = none
chunk_loop ((heap, (rc, b)) ∷ reads) ctx =
    chunk_round heap (record ctx { bbuffer = b }) (chunk_loop reads)

-- the chunked body; the first round takes what the header part kept, if anything
unfoldable pub receive_chunks : Heap → List (Heap × Read) → Http → Option (Errno × Http)
unfolding chunk_loop
receive_chunks heap reads ctx =
    if ctx.bbuffer.size == 0 then chunk_loop reads ctx else chunk_round heap ctx (chunk_loop reads)

abbrev pub has_body : Command → Bool
has_body put = true
has_body post = true
has_body patch = true
has_body _ = false

-- The two flags. For `Expect` the value of the other header is compared.
unfoldable pub set_flags : Http → Http
set_flags ctx =
    let te = get_header (codes "Transfer-Encoding") ctx in
    let ctx1 = record ctx {
      is_chunked = if is_equal true te (some (codes "chunked")) then true else ctx.is_chunked;
    } in
    elim (get_header (codes "Expect") ctx) [
      | none ↦ ctx1
      | some e ↦
          (if is_equal true te (some (codes "100-continue"))
            then record ctx1 { request = record (ctx1.request) { shake = true } }
            else ctx1)
    ]

abbrev pub hand_shake : Http → Option (Errno × Http)
unfolding check_length answer
hand_shake ctx =
    let c = with_response ctx (answer 100 v11 100 ctx.response) in
    check_length (get_header (codes "Content-Length") c) c (λ n. some (ok, c))

-- The body part for a header that was read well. `heap` and `reads` stand for the chunked loop,
-- `reads'` for the other one.
unfoldable pub receive_body :
    Heap → List (Heap × Read) → List (Grant × Read) → Http → Option (Errno × Http)
unfolding set_flags receive_chunks receive_length
receive_body heap reads reads' ctx =
    let c = set_flags ctx in
    if has_body ctx.request.command
    then if c.request.shake
      then hand_shake c
      else if c.is_chunked
      then receive_chunks heap reads c
      else receive_length (heap 0) reads' c
    else some (ok, ctx)
