-- ===== src/Http/Header/Loop.antt =====
-- The loops of the header part: over the bytes of one read, and over the reads.
use erishttp.Common.{
  ℕ, ◌+◌, Bool, true, false, not, none, some, List, [], ◌∷◌, ◌&&◌, ltb, if◌then◌else◌, Errno, ok,
  error, client_4xx, is_ok,
}
use erishttp.EString.{EString, free}
use erishttp.Buffer
use erishttp.Buffer.{Buffer, contents}
use erishttp.Buffer.Block.{Grant}
use erishttp.Http.Types.{unknow, v00, Http, ChunkState}
use erishttp.Http.Fail.{answer, refuse}
use erishttp.Http.Header.Parser.{Sreq, Parser, Heap, grants}
use erishttp.Http.Header.Line.{
  on_start, on_command, on_url_start, on_url, on_parameters, on_query, on_fragment, on_h, on_ht,
  on_htt, on_http, on_slash, on_major, on_dot, on_minor, on_title_cr, on_title_lf,
}
use erishttp.Http.Header.Fields.{
  on_header_name, on_header_colon, on_header_value, on_header_cr1, on_header_lf1, on_header_cr2,
  on_finish,
}

-- the `switch`, for the byte `c` at place `i`
abbrev pub step : Grant → ℕ → ℕ → Sreq → Parser → Parser
step g i c Sreq.start = on_start g c
step g i c Sreq.command = on_command g c
step g i c Sreq.url_start = on_url_start g c
step g i c Sreq.url = on_url g c
step g i c Sreq.parameters = on_parameters g c
step g i c Sreq.query = on_query g c
step g i c Sreq.fragment = on_fragment g c
step g i c Sreq.h = on_h g c
step g i c Sreq.ht = on_ht g c
step g i c Sreq.htt = on_htt g c
step g i c Sreq.http = on_http g c
step g i c Sreq.slash = on_slash g c
step g i c Sreq.major = on_major g c
step g i c Sreq.dot = on_dot g c
step g i c Sreq.minor = on_minor g c
step g i c Sreq.title_cr = on_title_cr c
step g i c Sreq.title_lf = on_title_lf c
step g i c Sreq.header_name = on_header_name g c
step g i c Sreq.header_colon = on_header_colon c
step g i c Sreq.header_value = on_header_value g c
step g i c Sreq.header_cr1 = on_header_cr1 c
step g i c Sreq.header_lf1 = on_header_lf1 g c
step g i c Sreq.header_cr2 = on_header_cr2 g i c
step g i c Sreq.header_lf2 = on_finish
step g i c Sreq.finish = on_finish

-- the header size check: the state stays
abbrev pub too_large : Parser → Parser
too_large p = record p { rc = client_4xx; context = refuse p.context 431 }

-- The `for` loop over `ph[ i..]`.
unfoldable pub parse_bytes : Heap → ℕ → List ℕ → Parser → Parser
unfolding answer refuse
parse_bytes heap i [] p = p
parse_bytes heap i (c ∷ cs) p =
    let q = record p { header_size = p.header_size + 1 } in
    let r = step (heap q.header_size) i c q.state q in
    let rest = parse_bytes heap (i + 1) cs r in
    if ltb q.context.attrs.header_max_size q.header_size
    then too_large q
    else if q.header_finish_flag
    then q
    else if is_ok r.rc
    then rest
    else r

-- What one call of the input callback gives: its return code and the header buffer it leaves.
abbrev pub Read : Type 0
Read = Errno × Buffer

abbrev pub received : Read → Parser → Parser
received (rc, b) p = record p { rc = rc; context = record (p.context) { hbuffer = b } }

abbrev pub clean_hbuffer : Parser → Parser
clean_hbuffer p = record p {
  context = record (p.context) { hbuffer = Buffer.cleanup p.context.hbuffer };
}

abbrev pub timed_out : Parser → Parser
timed_out p = record p { rc = error; context = refuse p.context 408 }

abbrev pub is_error : Errno → Bool
is_error error = true
is_error _ = false

-- The `do` loop over the reads, and the cleaning behind it. Where the list of reads ends the
-- callback fails.
unfoldable pub parse_reads : Heap → List Read → Parser → Parser
unfolding parse_bytes Buffer.cleanup
parse_reads heap [] p =
    if not p.header_finish_flag && is_ok p.rc then clean_hbuffer (timed_out p) else clean_hbuffer p
parse_reads heap (read ∷ reads) p =
    let q = received read p in
    let r = parse_bytes heap 0 (contents q.context.hbuffer) q in
    let rest = parse_reads heap reads (clean_hbuffer r) in
    if not p.header_finish_flag && is_ok p.rc
    then if is_error q.rc
      then clean_hbuffer (timed_out q)
      else if ltb 0 q.context.hbuffer.size
      then rest
      else clean_hbuffer q
    else clean_hbuffer p

-- `eris_http_cleanup_request`: the parameters and the fragment stay.
unfoldable pub cleanup_request : Http → Http
cleanup_request ctx = record ctx {
  request = record (ctx.request) {
    shake = false;
    command = unknow;
    url = free ctx.request.url;
    version = v00;
    headers = [];
    query = free ctx.request.query;
    body = Buffer.free ctx.request.body;
  };
}

-- what the parse resets before its first read
unfoldable pub reset : Http → Http
unfolding cleanup_request free Buffer.free Buffer.cleanup
reset ctx = record (cleanup_request ctx) {
  hbuffer = Buffer.cleanup ctx.hbuffer;
  bbuffer = Buffer.cleanup ctx.bbuffer;
  chunk_state = ChunkState.chunked;
  is_chunked = false;
  chunked_end = false;
  chunk_size = 0;
  tmp_chunk_size = 0;
}

-- `eris_string_alloc` of a working string
abbrev pub working_string : Grant → EString
working_string g = if grants g then some [] else none

abbrev pub begin : Grant → Http → Parser
begin g ctx = record {
  context = ctx;
  state = Sreq.start;
  tmp_s = working_string g;
  hname = working_string g;
  hvalue = working_string g;
  header_size = 0;
  header_finish_flag = false;
  rc = ok;
}

-- The header part of `eris_http_request_parse`, before the body is read.
unfoldable pub parse_header : Heap → List Read → Http → Parser
unfolding parse_reads reset
parse_header heap reads ctx = parse_reads heap reads (begin (heap 0) (reset ctx))
