-- ===== src/Http/Body/Rounds.antt =====
-- The loop over chunks when nothing comes in any more.
use erishttp.Common.{◌≡◌, refl, ◌∙◌, ap, false, none, List, [], ◌∷◌, ok, All, take}
use erishttp.Buffer
use erishttp.Buffer.{Buffer, contents}
use erishttp.Buffer.Block.{bytes_of}
use erishttp.Http.Types.{Http}
use erishttp.Http.Fail.{refuse}
use erishttp.Http.Header.{Heap, Read}
use erishttp.Http.Chunk.{request, parse_bytes, chunk_parse}
use erishttp.Http.Body.{after_round, chunk_loop}

-- a call of the callback that leaves no byte in the buffer, with any return code
abbrev pub IsSilent : Heap × Read → Type 0
IsSilent (heap, (rc, b)) = b.size ≡ 0

no_contents : (b : Buffer) → b.size ≡ 0 → contents b ≡ []
no_contents b h = ap (λ n. take n (bytes_of b.block)) h

chunk_parse-empty :
    (heap : Heap) (b : Buffer) (ctx : Http)
    → b.size ≡ 0
    → ctx.chunked_end ≡ false
    → chunk_parse heap request b ctx ≡ (ok, ctx)
unfolding chunk_parse parse_bytes
chunk_parse-empty heap b ctx none_came h = rw (no_contents b none_came, h) refl

-- The loop of `eris_http_request_parse` over chunks never ends on calls of the input callback that
-- bring no byte, whatever memory the buffer has and though all of them fail: however many there are,
-- it goes on behind them.
pub chunk_loop-silent :
    (reads : List (Heap × Read)) (ctx : Http)
    → All IsSilent reads
    → ctx.chunked_end ≡ false
    → chunk_loop reads ctx ≡ none
unfolding chunk_loop refuse
chunk_loop-silent [] ctx all h = refl
chunk_loop-silent ((heap, (rc, b)) ∷ reads) ctx (one, all) h =
    let got : Http = record ctx { bbuffer = b } in
    ap (λ r. after_round r (chunk_loop reads)) (chunk_parse-empty heap b got one h)
    ∙ rw h (
        chunk_loop-silent reads (record got { bbuffer = Buffer.cleanup b; chunked_end = false }) all
          refl)
