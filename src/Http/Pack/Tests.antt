-- ===== src/Http/Pack/Tests.antt =====
-- The pack at a concrete request.
use erishttp.Common.{ℕ, ◌<◌, ◌≡◌, refl, some, List, [], ◌∷◌, ◌++◌, arith, ok, All, length}
use erishttp.Buffer.{Buffer, contents, append, append_c, cleanup}
use erishttp.Http.Pack.Pieces.{put_pieces}
use erishttp.Buffer.Block.{Grant}
use erishttp.Buffer.Inv.{IsValid}
use erishttp.Http.Types.{Http}
use erishttp.Http.Header.{Heap, Read, cleanup_request}
use erishttp.Http.Header.Open.{asked}
use erishttp.Http.Header.Reads.{joined, reads_of}
use erishttp.Http.Header.Render.{render}
use erishttp.Http.Header.Sample.{context, heap, message, message-IsPlain}
use erishttp.Http.Pack.{request_pack, marked}
use erishttp.Http.Pack.Render.{asking, IsPackable, request_pack-render}
use erishttp.Http.Pack.RoundTrip.{request_parse-request_pack}
use erishttp.Http.Request.{request_parse}

message-IsPackable : IsPackable message
message-IsPackable = record {
  method = λ e. cc;
  no_propfind = λ e. cc;
  no_view = λ e. cc;
  version = λ e. cc;
  parameters = λ e. cc;
  query = λ e. cc;
  fragment = λ e. cc;
}

-- what the callback gets for the sample
packed_bytes : contents (request_pack heap (asking message context)).1.hbuffer ≡ render message
unfolding render request_pack put_pieces append cleanup append_c marked
packed_bytes = refl

request_pack-render_example :
    (b : Buffer) × (request_pack heap (asking message context)
      ≡ (ok, record (asking message context) { hbuffer = b }, b ∷ []))
    × IsValid b
    × (contents b ≡ render message)
unfolding marked
request_pack-render_example =
    request_pack-render heap message context (λ n. refl) message-IsPackable (ground arith)
      (omega arith)

request_parse-request_pack_example :
    (b : Buffer) × (request_pack heap (asking message context)
      ≡ (ok, record (asking message context) { hbuffer = b }, b ∷ []))
    × ((bs : List Buffer) (c : Buffer) (behind : List ℕ) (more : List Read)
          (chunk_reads : List (Heap × Read)) (length_reads : List (Grant × Read))
        → IsValid c
        → All (λ r. 0 < r.size) bs
        → joined bs ++ contents c ≡ contents b ++ behind
        → length (joined bs) < length (contents b)
        → (end : Http) × (request_parse heap
              (reads_of bs ++ ((ok, c) ∷ more))
              heap
              chunk_reads
              length_reads
              context
            ≡ some (ok, end))
          × (end.request ≡ asked message (cleanup_request context).request))
unfolding render marked
request_parse-request_pack_example =
    request_parse-request_pack heap heap heap message context context (λ n. refl) (λ n. refl)
      message-IsPackable message-IsPlain (λ e. cc) (λ e. cc) (λ e. cc) (ground arith) (ground arith)
      (omega arith) (omega arith) (omega arith)
