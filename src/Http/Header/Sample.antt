-- ===== src/Http/Header/Sample.antt =====
-- A context, and a request in two reads, for the tests.
use erishttp.Common.{ℕ, ◌+◌, refl, some, none, List, [], ◌∷◌, ◌++◌, codes, length, false}
use erishttp.Buffer.{Buffer, empty}
use erishttp.Http.Types.{Attrs, unknow, get, v00, v11, Request, Http, ChunkState}
use erishttp.Http.Header.Parser.{Heap}
use erishttp.Http.Header.Render.{Field, Message, IsPlain, line_end}

abbrev pub attrs : Attrs
attrs = record {
  url_max_size = 1024;
  header_max_size = 4096;
  body_max_size = 10485760;
  header_cache_size = 4096;
  body_cache_size = 16384;
}

abbrev pub request : Request
request = record {
  shake = false;
  command = unknow;
  url = none;
  version = v00;
  headers = [];
  parameters = none;
  query = none;
  fragment = none;
  body = empty;
}

abbrev pub context : Http
context = record {
  attrs = attrs;
  request = request;
  response = record { status = 0; version = v00; reason = 0; body = empty };
  hbuffer = empty;
  bbuffer = empty;
  chunk_state = ChunkState.chunked;
  is_chunked = false;
  chunked_end = false;
  chunk_size = 0;
  tmp_chunk_size = 0;
}

abbrev pub heap : Heap
heap n = some 170

abbrev pub holding : List ℕ → Buffer
holding xs = record { alloc = length xs + 1; size = length xs; block = some (xs ++ (0 ∷ [])) }

abbrev pub host : Field
host = record { initial = b'H'; more = codes "ost"; value = codes "x" }

abbrev pub accept : Field
accept = record { initial = b'A'; more = codes "ccept"; value = codes "*/*" }

abbrev pub message : Message
message = record {
  command = get;
  path = codes "a";
  parameters = none;
  query = some (codes "q=1");
  fragment = none;
  version = v11;
  field = host;
  fields = accept ∷ [];
}

pub message-IsPlain : IsPlain message
message-IsPlain = record {
  method = λ e. cc;
  version = λ e. cc;
  path = (refl, tt);
  parameters = tt;
  query = (refl, (refl, (refl, tt)));
  fragment = tt;
  field = (refl, (refl, (refl, (refl, tt))), (refl, tt));
  fields = ((refl, (refl, (refl, (refl, (refl, (refl, tt))))), (refl, (refl, (refl, tt)))), tt);
}

-- the request in two reads, the second with four bytes of a body
abbrev pub first_read : Buffer
first_read = holding (codes "GET /a?q=1 HTTP/1.1" ++ (line_end ++ codes "Ho"))

abbrev pub second_read : Buffer
second_read = holding (
    codes "st: x"
    ++ (line_end ++ (codes "Accept: */*" ++ (line_end ++ (line_end ++ codes "BODY")))))
