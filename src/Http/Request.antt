-- ===== src/Http/Request.antt =====
-- The whole of `eris_http_request_parse` in src/core/eris.http.c.
mod Tests
pub mod Plain
use erishttp.Common.{Bool, true, false, ◌&&◌, Option, none, some, List, if◌then◌else◌, Errno, is_ok}
use erishttp.Buffer
use erishttp.Buffer.Block.{Grant}
use erishttp.Http.Types.{Http}
use erishttp.Http.Header.{Heap, Read, parse_header}
use erishttp.Http.Body.{receive_body}

-- the cleaning at the end
abbrev pub closed : Option (Errno × Http) → Option (Errno × Http)
unfolding Buffer.cleanup
closed none = none
closed (some (rc, ctx)) =
    some (
      rc,
      record ctx { hbuffer = Buffer.cleanup ctx.hbuffer; bbuffer = Buffer.cleanup ctx.bbuffer },
    )

-- `header_reads` is what the callback gives for the header, the other lists what it gives for a
-- chunked body and for a body with a length. `none` means that the loop over a body
-- still goes on.
unfoldable pub request_parse :
    Heap
    → List Read
    → Heap
    → List (Heap × Read)
    → List (Grant × Read)
    → Http
    → Option (Errno × Http)
unfolding parse_header receive_body closed
request_parse heap header_reads heap' chunk_reads length_reads ctx =
    let p = parse_header heap header_reads ctx in
    closed (
      if is_ok p.rc && p.header_finish_flag
      then receive_body heap' chunk_reads length_reads p.context
      else some (p.rc, p.context))
