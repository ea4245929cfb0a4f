-- ===== src/Http/Body/Tests.antt =====
-- Runs of the body part, and the theorems at concrete requests.
use erishttp.Common.{
  ℕ, ◌+◌, ◌≡◌, refl, false, some, none, List, [], ◌∷◌, ◌++◌, codes, length, arith, ok, error,
  client_4xx,
}
use erishttp.EString.{is_equal}
use erishttp.Buffer.{Buffer, empty}
use erishttp.Buffer.Block.{Grant}
use erishttp.Http.Types.{Attrs, post, v00, v11, Request, Http, ChunkState}
use erishttp.Http.Fail.{refuse}
use erishttp.Http.Header.{Heap, Read}
use erishttp.Http.Body.{find_header, collect, chunk_loop, check_length}
use erishttp.Http.Body.Collect.{arrived, Collected, collect-Collected}
use erishttp.Http.Body.Rounds.{chunk_loop-silent}
use erishttp.Http.Body.Length.{check_length-negative}

abbrev attrs : Attrs
attrs = record {
  url_max_size = 1024;
  header_max_size = 4096;
  body_max_size = 10485760;
  header_cache_size = 4096;
  body_cache_size = 16384;
}

abbrev posted : Request
posted = record {
  shake = false;
  command = post;
  url = some (codes "/");
  version = v11;
  headers =
      (some (codes "Content-Length"), some (codes "5"))
      ∷ (some (codes "Host"), some (codes "x"))
      ∷ [];
  parameters = none;
  query = none;
  fragment = none;
  body = empty;
}

abbrev context : Http
context = record {
  attrs = attrs;
  request = posted;
  response = record { status = 0; version = v00; reason = 0; body = empty };
  hbuffer = empty;
  bbuffer = empty;
  chunk_state = ChunkState.chunked;
  is_chunked = false;
  chunked_end = false;
  chunk_size = 0;
  tmp_chunk_size = 0;
}

abbrev holding : List ℕ → Buffer
holding xs = record { alloc = length xs + 1; size = length xs; block = some (xs ++ (0 ∷ [])) }

abbrev heap : Heap
heap n = some 170

length_runs : find_header (codes "content-length") posted.headers ≡ some (codes "5")
unfolding find_header is_equal
length_runs = refl

abbrev two_reads : List Buffer
two_reads = holding (codes "hel") ∷ holding (codes "lo!") ∷ []

-- the peer is gone
abbrev gone : List (Grant × Read)
gone = (some 99, (error, empty)) ∷ []

collect-Collected_example :
    Collected 5 empty two_reads gone (collect 5 (arrived 99 two_reads ++ gone) context)
collect-Collected_example =
    collect-Collected 5 99 two_reads gone context refl (omega arith)
      (omega arith, (omega arith, tt)) (omega arith)

chunk_loop-silent_example :
    chunk_loop
      ((heap, (ok, holding [])) ∷ (heap, (error, holding [])) ∷ (heap, (error, empty)) ∷ [])
      context
    ≡ none
chunk_loop-silent_example =
    chunk_loop-silent
      ((heap, (ok, holding [])) ∷ (heap, (error, holding [])) ∷ (heap, (error, empty)) ∷ []) context
      (refl, (refl, (refl, tt))) refl

check_length-negative_example :
    check_length (some (codes "-5")) context (λ n. some (ok, context))
    ≡ some (client_4xx, refuse context 413)
check_length-negative_example =
    check_length-negative (codes "5") context (λ n. some (ok, context)) (refl, tt) (omega arith)
      (omega arith) (omega arith)
