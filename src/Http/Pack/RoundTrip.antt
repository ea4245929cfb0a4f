-- ===== src/Http/Pack/RoundTrip.antt =====
-- A request that is packed and then parsed.
use erishttp.Common.{
  ℕ, ◌+◌, ◌≤◌, ◌<◌, ◌^◌, ◌≡◌, ◌≢◌, ap, ◌∙◌, true, some, List, [], ◌∷◌, ◌++◌, length, All, ok, Bool,
  if◌then◌else◌, arith,
}
use erishttp.Buffer.{Buffer, contents}
use erishttp.Buffer.Block.{Grant}
use erishttp.Buffer.Inv.{IsValid}
use erishttp.Http.Types.{Http, put, post, patch}
use erishttp.Http.Header.{Heap, Read, grants, cleanup_request}
use erishttp.Http.Header.Open.{asked}
use erishttp.Http.Header.Reads.{joined, reads_of}
use erishttp.Http.Header.Render.{Message, IsPlain, render}
use erishttp.Http.Request.{request_parse}
use erishttp.Http.Request.Plain.{request_parse-render, has_body-other}
use erishttp.Http.Pack.{request_pack}
use erishttp.Http.Pack.Render.{asking, room_for, IsPackable, request_pack-render}

-- A client packs a request of a method other than PUT, POST and PATCH, and a server, whose context is
-- `ctx'`, parses what the callback got, however it comes in reads and whatever is behind it: the pack
-- returns 0 and one buffer, the parse returns 0, and the request of the server's context is the one
-- that the message asks for. The conditions are those of the pack and of the parse.
pub request_parse-request_pack :
    (heap heap1 heap2 : Heap) (m : Message) (ctx ctx' : Http)
    → ((n : ℕ) → grants (heap n) ≡ true)
    → ((n : ℕ) → grants (heap1 n) ≡ true)
    → IsPackable m
    → IsPlain m
    → m.command ≢ put
    → m.command ≢ post
    → m.command ≢ patch
    → IsValid ctx.hbuffer
    → IsValid ctx'.bbuffer
    → ctx.hbuffer.alloc + room_for m ctx.request < 2 ^ 64
    → 1 + length m.path ≤ ctx'.attrs.url_max_size
    → length (render m) + 1 ≤ ctx'.attrs.header_max_size
    → (b : Buffer) × (request_pack heap (asking m ctx)
        ≡ (ok, record (asking m ctx) { hbuffer = b }, b ∷ []))
      × ((bs : List Buffer) (c : Buffer) (behind : List ℕ) (more : List Read)
            (chunk_reads : List (Heap × Read)) (length_reads : List (Grant × Read))
          → IsValid c
          → All (λ r. 0 < r.size) bs
          → joined bs ++ contents c ≡ contents b ++ behind
          → length (joined bs) < length (contents b)
          → (end : Http) × (request_parse heap1
                (reads_of bs ++ ((ok, c) ∷ more))
                heap2
                chunk_reads
                length_reads
                ctx'
              ≡ some (ok, end))
            × (end.request ≡ asked m (cleanup_request ctx').request))
request_parse-request_pack heap heap1 heap2 m ctx ctx' granted granted1 k plain not_put not_post
      not_patch v vbody room short held =
    let (b, run, valid, bytes) = request_pack-render heap m ctx granted k v room in
    (
      b,
      run
          ∙ ap
              (λ (t : Bool). (
                ok,
                record (asking m ctx) { hbuffer = b },
                b ∷ (if t then ctx.request.body ∷ [] else []),
              ))
              (has_body-other m.command not_put not_post not_patch),
      λ bs c behind more chunk_reads length_reads vc full texts before.
          let (end, parsed, req, same) =
            request_parse-render heap1 heap2 m bs {b = c} behind more chunk_reads length_reads ctx'
              granted1 plain not_put not_post not_patch vc vbody full
              (texts ∙ ap (λ xs. xs ++ behind) bytes) (omega (arith, ap length bytes)) short held in
          (end, parsed, req),
    )
