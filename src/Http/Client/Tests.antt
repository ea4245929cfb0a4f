-- ===== src/Http/Client/Tests.antt =====
-- A client at a concrete context.
use erishttp.Common.{refl, ℕ, ◌≡◌, ◌≢◌, true, some, List, [], ◌∷◌, codes, arith, ok, length}
use erishttp.EString.{is_equal}
use erishttp.Http.Types.{Http, post}
use erishttp.Http.Body.{get_header}
use erishttp.Http.Header.Sample.{context, heap, holding, message}
use erishttp.Http.Client.{set_header, set_body, set_body_append}
use erishttp.Http.Client.SetHeader.{lower, has_name, get_header-set_header}
use erishttp.Http.Client.SetBody.{IsSent, request_pack-set_body}
use erishttp.Http.Pack.{marked}
use erishttp.Http.Pack.Render.{asking, IsPackable}
use erishttp.Http.Header.Render.{Message}

abbrev asking_json : Http
asking_json = record context {
  request = record (context.request) {
    headers = (some (codes "Content-Type"), some (codes "application/json; charset=utf-8")) ∷ [];
  };
}

get_header-set_header_example :
    (ctx' : Http) × (set_header true true true (some (codes "Host")) (some (codes "x")) asking_json
      ≡ (ok, ctx'))
    × (get_header (codes "Host") ctx' ≡ some (codes "x"))
    × (has_name (codes "Host") ctx'.request.headers ≡ true)
    × (length ctx'.request.headers ≡ 2)
    × ((other : List ℕ)
        → lower other ≢ lower (codes "Host")
        → (get_header other ctx' ≡ get_header other asking_json)
          × (has_name other ctx'.request.headers ≡ has_name other asking_json.request.headers))
unfolding is_equal
get_header-set_header_example =
    get_header-set_header (codes "Host") (codes "x") asking_json (omega arith)

-- the sample, with a method that has a body
abbrev posted : Message
posted = record message { command = post }

-- a request and an answer that have a body
abbrev used : Http
used = record context {
  request = record (context.request) { body = holding (codes "OLD") };
  response = record (context.response) { body = holding (codes "ANSWER") };
}

posted-IsPackable : IsPackable posted
posted-IsPackable = record {
  method = λ e. cc;
  no_propfind = λ e. cc;
  no_view = λ e. cc;
  version = λ e. cc;
  parameters = λ e. cc;
  query = λ e. cc;
  fragment = λ e. cc;
}

request_pack-set_body_example :
    IsSent heap posted used
      (codes "BODY")
      (set_body (some 170) (some (codes "BODY")) (asking posted used))
    × IsSent heap posted used
        (codes "ANSWERBODY")
        (set_body_append (some 170) (some (codes "BODY")) (asking posted used))
unfolding marked
request_pack-set_body_example =
    request_pack-set_body heap posted used 170 b'B' (codes "ODY") (λ n. refl) posted-IsPackable
      (omega arith) (omega arith) (omega arith) (omega arith)
