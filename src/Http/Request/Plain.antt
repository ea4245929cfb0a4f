-- ===== src/Http/Request/Plain.antt =====
-- The request parser on requests without a body.
use erishttp.Common.{
  ℕ, ◌+◌, ◌≤◌, ◌<◌, ◌≡◌, refl, ◌∙◌, ap, true, false, ◌&&◌, some, List, ◌∷◌, ◌++◌, length, All,
  arith, ok, ◌≢◌, is_ok,
}
use erishttp.Buffer
use erishttp.Buffer.{Buffer, contents}
use erishttp.Buffer.Block.{Grant}
use erishttp.Buffer.Inv.{IsValid}
use erishttp.Http.Types.{Request, Http, Command, put, post, patch}
use erishttp.Http.Header.{Heap, Read, grants, parse_header, cleanup_request}
use erishttp.Http.Header.Parser.{Parser}
use erishttp.Http.Header.Open.{asked}
use erishttp.Http.Header.Reads.{joined, reads_of}
use erishttp.Http.Header.Render.{Message, IsPlain, render}
use erishttp.Http.Header.RoundTrip.{parse_header-render}
use erishttp.Http.Body.{has_body, receive_body}
use erishttp.Http.Request.{closed, request_parse}

no_body :
    (heap : Heap) (chunk_reads : List (Heap × Read)) (length_reads : List (Grant × Read))
    (ctx : Http)
    → has_body ctx.request.command ≡ false
    → receive_body heap chunk_reads length_reads ctx ≡ some (ok, ctx)
unfolding receive_body
no_body heap chunk_reads length_reads ctx h = rw h refl

pub has_body-other : (c : Command) → c ≢ put → c ≢ post → c ≢ patch → has_body c ≡ false
has_body-other put a b c = absurd (a refl)
has_body-other post a b c = absurd (b refl)
has_body-other patch a b c = absurd (c refl)
has_body-other _ a b c = refl

-- `eris_http_request_parse` on a request that a client wrote, of a method other than PUT, POST and
-- PATCH, however its header comes in reads: it returns 0, the request of the context is the one that
-- the message asks for, and the answer is unchanged. What stands behind the header is dropped. The
-- conditions are those of the header part.
pub request_parse-render :
    (heap heap' : Heap) (m : Message) (bs : List Buffer) {b : Buffer} (behind : List ℕ)
    (more : List Read) (chunk_reads : List (Heap × Read)) (length_reads : List (Grant × Read))
    (ctx : Http)
    → ((n : ℕ) → grants (heap n) ≡ true)
    → IsPlain m
    → m.command ≢ put
    → m.command ≢ post
    → m.command ≢ patch
    → IsValid b
    → IsValid ctx.bbuffer
    → All (λ r. 0 < r.size) bs
    → joined bs ++ contents b ≡ render m ++ behind
    → length (joined bs) < length (render m)
    → 1 + length m.path ≤ ctx.attrs.url_max_size
    → length (render m) + 1 ≤ ctx.attrs.header_max_size
    → (ctx' : Http) × (request_parse heap
          (reads_of bs ++ ((ok, b) ∷ more))
          heap'
          chunk_reads
          length_reads
          ctx
        ≡ some (ok, ctx'))
      × (ctx'.request ≡ asked m (cleanup_request ctx).request)
      × (ctx'.response ≡ ctx.response)
unfolding request_parse closed
request_parse-render heap heap' m bs {b} behind more chunk_reads length_reads ctx granted plain
      not_put not_post not_patch vb vbody full held before short room =
    let p : Parser = parse_header heap (reads_of bs ++ ((ok, b) ∷ more)) ctx in
    let (fine, flag, req, same, kept) =
      parse_header-render heap m bs {b = b} behind more ctx granted plain vb vbody full held before
        short room in
    let go : (is_ok p.rc && p.header_finish_flag) ≡ true = ground (arith, fine, flag) in
    let none_asked : has_body p.context.request.command ≡ false =
      ap (λ (r : Request). has_body r.command) req
      ∙ has_body-other m.command not_put not_post not_patch in
    (
      record (p.context) {
        hbuffer = Buffer.cleanup p.context.hbuffer;
        bbuffer = Buffer.cleanup p.context.bbuffer;
      },
      rw go (ap closed (no_body heap' chunk_reads length_reads p.context none_asked)),
      req,
      same,
    )
